-- ===== src/Methods/Running/Stop.antt =====
-- vx.stop as a whole, when nothing refuses it: it ends when the context ends.
use vcd.Base.{
  ℕ, ◌+◌, ◌<◌, true, false, String, List, [], ◌∷◌, ◌++◌, some, ◌≡◌, ◌≢◌, refl, ap, arith, ◌==◌,
  Bool-cases, inl, inr,
}
use vcd.Sql.{Query, query_clean, row_clean, select, unordered}
use vcd.Sql.Answers.{Record, answer}
use vcd.Platform.{Platform, IsHealthy}
use vcd.Kernel.{Exit, enter, command_in, exited, alive}
use vcd.Validate.{validate_name}
use vcd.Vxdb.{vxdb_getxid, vxdb_getvdir}
use vcd.Call.{State, Result, ok, fault, Params, str, member, internal, Request, Reply, one}
use vcd.Call.Laws.{get_str-pure}
use vcd.Call.Sys.Follows.{called}
use vcd.Call.Sys.RunsTo.{
  RunsTo, RunsTo-bind, RunsTo-reads, RunsTo-looks, RunsTo-fault_if, RunsTo-get_str, RunsTo-must,
  RunsTo-child, RunsTo-require_running, RunsTo-fetch,
}
use vcd.Lists.VcdCap
use vcd.Methods.{m_owner, m_lock, method_init, method_check_flags, mebusy}
use vcd.Methods.Common.{xid_is, require_xid}
use vcd.Methods.Running.{
  m_vx_stop, m_vx_exec, exec_reply, wait_stopped, last_text, last_timeout, command_for,
}
use vcd.Methods.Running.Waiting.{seconds_of, info_after, wait_stopped-lives}

module _ ⦃p : Platform⦄ where
  pub RunsTo-init :
      (ps : Params) (name : String) (caps flags : ℕ) (s : State)
      → member "name" ps ≡ some (str name)
      → validate_name name ≡ true
      → RunsTo (method_init (internal ps) caps flags) s (ok ps, s)
  unfolding method_init method_check_flags
  RunsTo-init ps name caps flags s named valid = elim (Bool-cases (flags == 0)) [
    | inl unasked ↦ record { at = rw (unasked, method_init) refl }
    | inr asked ↦ record {
      at = rw (asked, get_str-pure "name" ps name named, valid, method_init) (ground arith);
    }
  ]

  pub RunsTo-require_xid :
      (name : String) (s : State)
      → vxdb_getxid s.db name ≢ 0
      → RunsTo (require_xid name) s (ok (vxdb_getxid s.db name), s)
  unfolding require_xid
  RunsTo-require_xid name s known = elim (Bool-cases (vxdb_getxid s.db name == 0)) [
    | inl missing ↦ absurd (known (ground arith))
    | inr there ↦ record { at = rw there refl }
  ]

  -- The virtual server runs, and it can be entered.
  pub record IsRunning (s : State) (name vdir : String) : Type 0 where
    pub valid : validate_name name ≡ true
    pub known : vxdb_getxid s.db name ≢ 0
    pub runs : p.vx_info s.calls (vxdb_getxid s.db name) ≡ alive
    pub has_vdir : vxdb_getvdir s.db name ≡ some vdir
    pub enters : p.accepts s.calls (enter (vxdb_getxid s.db name) vdir) ≡ true

  abbrev pub entered : State → ℕ → String → String → State
  entered s xid vdir command = called (called s (enter xid vdir ∷ [])) (command_in xid command ∷ [])

  -- The command ends with the exit status 0.
  abbrev pub Succeeds : State → ℕ → String → String → Type 0
  Succeeds s xid vdir command =
      p.runs (s.calls ++ enter xid vdir ∷ []) (command_in xid command) ≡ exited 0

  RunsTo-exec_reply :
      (e : Exit) (output : String) (s : State)
      → e ≡ exited 0
      → RunsTo (exec_reply e output) s (ok (one (str output)), s)
  RunsTo-exec_reply e output s h = record { at = ap (λ x. exec_reply x output s) h }

  RunsTo-m_vx_exec :
      (s : State) (name vdir command : String)
      → IsRunning s name vdir
      → Succeeds s (vxdb_getxid s.db name) vdir command
      → (r : Reply) × RunsTo
          (m_vx_exec (command_for name command))
          s
          (ok r, entered s (vxdb_getxid s.db name) vdir command)
  unfolding m_vx_exec member
  RunsTo-m_vx_exec s name vdir command h succeeds =
      let xid = vxdb_getxid s.db name in
      let s1 = called s (enter xid vdir ∷ []) in
      let output = p.output s1.calls (command_in xid command) in
      let vdir_there = h.has_vdir in
      (
        one (str output),
        RunsTo-bind _ _ _ _ _ _ (RunsTo-init _ name _ _ s refl h.valid) (
            RunsTo-bind _ _ _ _ _ _ (RunsTo-get_str "name" _ name s refl) (
              RunsTo-bind _ _ _ _ _ _ (RunsTo-get_str "command" _ command s refl) (
                RunsTo-bind _ _ _ _ _ _ (RunsTo-require_xid name s h.known) (
                  RunsTo-bind _ _ _ _ _ _ (RunsTo-require_running xid s h.runs) (
                    RunsTo-bind _ _ _ _ _ _ (RunsTo-reads _ s) (
                      rw vdir_there (
                        RunsTo-bind _ _ _ _ _ _ (RunsTo-fault_if false _ s refl) (
                          RunsTo-bind _ _ _ _ _ _ (RunsTo-must (enter xid vdir) s h.enters) (
                            RunsTo-bind _ _ _ _ _ _ (RunsTo-looks _ s1) (
                              RunsTo-bind _ _ _ _ _ _ (RunsTo-child (command_in xid command) s1)
                                (RunsTo-exec_reply _ output _ succeeds))))))))))),
      )

  abbrev pub halt_query : ℕ → Query
  halt_query xid = select ("halt" ∷ "timeout" ∷ []) "init" (xid_is xid) unordered

  abbrev pub halt_rows : State → String → List Record
  halt_rows s name = answer p.arrange (halt_query (vxdb_getxid s.db name)) s.db

  -- The state in which vx.stop has run the command that halts the virtual server.
  abbrev pub halted : State → String → String → State
  halted s name vdir =
      entered s (vxdb_getxid s.db name) vdir (last_text "/sbin/halt" (halt_rows s name))

  RunsTo-m_vx_stop :
      (request : Request) (r s : State) (ps : Params) (name vdir : String)
      (e : Result Reply × State)
      → IsHealthy p
      → method_init request VcdCap.init (m_owner + m_lock) r ≡ (ok ps, s)
      → member "name" ps ≡ some (str name)
      → IsRunning s name vdir
      → Succeeds s (vxdb_getxid s.db name) vdir (last_text "/sbin/halt" (halt_rows s name))
      → wait_stopped
          (vxdb_getxid s.db name)
          (last_timeout 15 (halt_rows s name))
          (halted s name vdir)
        ≡ e
      → m_vx_stop request r ≡ e
  unfolding m_vx_stop query_clean row_clean
  RunsTo-m_vx_stop request r s ps name vdir e healthy enters named h succeeds waits =
      let xid = vxdb_getxid s.db name in
      let command = last_text "/sbin/halt" (halt_rows s name) in
      let let_in : RunsTo (method_init request VcdCap.init (m_owner + m_lock)) r (ok ps, s) =
        record { at = enters } in
      let (reply, ran) = RunsTo-m_vx_exec s name vdir command h succeeds in
      (RunsTo-bind _ _ _ _ _ _ let_in (
        RunsTo-bind _ _ _ _ _ _ (RunsTo-get_str "name" ps name s named) (
          RunsTo-bind _ _ _ _ _ _ (RunsTo-require_xid name s h.known) (
            RunsTo-bind _ _ _ _ _ _ (RunsTo-require_running xid s h.runs) (
              RunsTo-bind _ _ _ _ _ _ (RunsTo-fetch (halt_query xid) s healthy refl)
                (RunsTo-bind _ _ _ _ _ _ ran (record { at = waits }))))))).at

  -- While no call of sqlite fails: once method_init has let a request for vx.stop in, of a client or of
  -- another method, and the virtual server runs, can be entered, and its command for a halt succeeds,
  -- a context that lives through the whole timeout makes vx.stop fail with MEBUSY, when just the
  -- seconds of the timeout have passed.
  pub m_vx_stop-busy :
      (request : Request) (r s : State) (ps : Params) (name vdir : String)
      → IsHealthy p
      → method_init request VcdCap.init (m_owner + m_lock) r ≡ (ok ps, s)
      → member "name" ps ≡ some (str name)
      → IsRunning s name vdir
      → Succeeds s (vxdb_getxid s.db name) vdir (last_text "/sbin/halt" (halt_rows s name))
      → ((j : ℕ)
          → j < last_timeout 15 (halt_rows s name)
          → info_after (vxdb_getxid s.db name) (halted s name vdir).calls j ≡ alive)
      → m_vx_stop request r ≡ (
        fault mebusy,
        called (halted s name vdir) (seconds_of (last_timeout 15 (halt_rows s name))),
      )
  m_vx_stop-busy request r s ps name vdir healthy enters named h succeeds living =
      RunsTo-m_vx_stop request r s ps name vdir _ healthy enters named h succeeds
        (wait_stopped-lives _ _ (halted s name vdir) living)
