-- ===== src/Methods/Helper/Plan/Ready.antt =====
-- What helper.startup checks before its first call.
use vcd.Base.{ℕ, true, false, List, some, ◌≡◌, refl, sym, ap, subst, ◌∙◌, Bool-cases, ◌⊎◌, inl, inr}
use vcd.Base.Int.{ℤ}
use vcd.Sql.{Contents}
use vcd.Platform.{Platform}
use vcd.Kernel.{Syscall}
use vcd.Lists.VcdCap
use vcd.Vxdb.{vxdb_getname, vxdb_getvdir}
use vcd.Call.{
  State, Result, ok, fault, Fault, looks, reads, ◌>>=◌, continue, fault_if, num, Params, member,
  external, get_int,
}
use vcd.Call.Sys.{is_alive}
use vcd.Call.Laws.{get_int-num}
use vcd.Methods.{menovps, mestopped, meconf, method_init}
use vcd.Methods.Common.{is_none, text_of}
use vcd.Methods.Gate.{counted, init-Admits}
use vcd.Methods.Passing.{init-Unwritten}
use vcd.Methods.Vxdb.Names.{to_xid}
use vcd.Methods.Helper.{start_up}
use vcd.Methods.Helper.Plan.Still.{init-Still}

module _ ⦃p : Platform⦄ where
  -- A fault is set and no call has been made since `h`.
  abbrev pub Barred : {A : Type 0} → Result A × State → List Syscall → Type 0
  Barred end h = (x : Fault) × (end.0 ≡ fault x) × (end.1.calls ≡ h)

  -- The context id has a name and a directory, and the context runs.
  abbrev pub IsReady : Contents → List Syscall → ℕ → Type 0
  IsReady db h xid =
      (is_none (vxdb_getname db xid) ≡ false)
      × (is_alive (p.vx_info h xid) ≡ true)
      × (is_none (vxdb_getvdir db (text_of (vxdb_getname db xid))) ≡ false)

  body-Barred : (xid : ℕ) (s : State) → Barred (start_up xid s) s.calls ⊎ IsReady s.db s.calls xid
  unfolding start_up reads looks fault_if
  body-Barred xid s = elim (Bool-cases (is_none (vxdb_getname s.db xid))) [
    | inl nameless ↦ inl (menovps, rw (nameless, start_up) refl, rw (nameless, start_up) refl)
    | inr named ↦ elim (Bool-cases (is_alive (p.vx_info s.calls xid))) [
      | inr stopped ↦
          inl (mestopped, rw (named, stopped, start_up) refl, rw (named, stopped, start_up) refl)
      | inl runs ↦
          elim (Bool-cases (is_none (vxdb_getvdir s.db (text_of (vxdb_getname s.db xid))))) [
            | inl homeless ↦ inl (
              meconf,
              rw (named, runs, homeless, start_up) refl,
              rw (named, runs, homeless, start_up) refl,
            )
            | inr homed ↦ inr (named, runs, homed)
          ]
    ]
  ]

  pub gate-Barred :
      (credentials params : Params) (id : ℤ) (s s' : State) (r : Result Params)
      → member "xid" params ≡ some (num id)
      → method_init (external credentials params) VcdCap.helper 0 s ≡ (r, s')
      → Barred (continue r (λ ps. get_int "xid" ps >>= λ z. start_up (to_xid z)) s') s.calls
        ⊎ ((r ≡ ok params) × IsReady (counted s).db s.calls (to_xid id))
  gate-Barred credentials params id s s' (fault x) named e = inl (
    x,
    refl,
    ap (λ z. z.1.calls) (sym e) ∙ (init-Still s.calls credentials params VcdCap.helper 0).at s refl,
  )
  gate-Barred credentials params id s s' (ok ps) named e =
      let same = (init-Admits credentials params VcdCap.helper 0 s s' ps e).1 in
      let still =
        ap (λ z. z.1.calls) (sym e)
        ∙ (init-Still s.calls credentials params VcdCap.helper 0).at s refl in
      let unwritten = init-Unwritten credentials params VcdCap.helper 0 s s' ps e in
      let given = get_int-num "xid" ps id (ap (member "xid") same ∙ named) in
      rw given (elim (body-Barred (to_xid id) s') [
        | inl (x, faults, kept) ↦ inl (x, faults, kept ∙ still)
        | inr ready ↦ inr (
          ap ok same,
          subst (λ d. IsReady d s.calls (to_xid id)) unwritten
              (subst (λ h. IsReady s'.db h (to_xid id)) still ready),
        )
      ])
