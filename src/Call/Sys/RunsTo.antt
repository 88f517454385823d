-- ===== src/Call/Sys/RunsTo.antt =====
-- Steps that are known to succeed, one rule for each.
use vcd.Base.{ℕ, Bool, true, false, String, List, [], ◌∷◌, some, ◌≡◌, refl, ap, ◌∙◌}
use vcd.Sql.{Contents, Query, query_clean}
use vcd.Sql.Answers.{answer}
use vcd.Platform.{Platform, IsHealthy}
use vcd.Kernel.{Syscall, alive}
use vcd.Call.{
  State, Result, ok, Fault, M, reads, looks, ◌>>=◌, continue, fault_if, Params, str, member,
  get_str, fetch,
}
use vcd.Call.Fetch.{fetch_complete}
use vcd.Call.Laws.{get_str-pure}
use vcd.Call.Sys.{sys, must, child, require_running}
use vcd.Call.Sys.Follows.{called}

-- From the state `s` the steps end like this.
pub record RunsTo {A : Type 0} (m : M A) (s : State) (e : Result A × State) : Type 0 where
  pub at : m s ≡ e

module _ {A B : Type 0} where
  pub RunsTo-bind :
      (m : M A) (f : A → M B) (s t : State) (a : A) (e : Result B × State)
      → RunsTo m s (ok a, t)
      → RunsTo (f a) t e
      → RunsTo (m >>= f) s e
  RunsTo-bind m f s t a e h k = record { at = ap (λ z. continue z.0 f z.1) h.at ∙ k.at }

module _ {A : Type 0} where
  pub RunsTo-reads : (f : Contents → A) (s : State) → RunsTo (reads f) s (ok (f s.db), s)
  unfolding reads
  RunsTo-reads f s = record { at = refl }

  pub RunsTo-looks : (f : List Syscall → A) (s : State) → RunsTo (looks f) s (ok (f s.calls), s)
  unfolding looks
  RunsTo-looks f s = record { at = refl }

pub RunsTo-fault_if :
    (b : Bool) (x : Fault) (s : State) → b ≡ false → RunsTo (fault_if b x) s (ok tt, s)
unfolding fault_if
RunsTo-fault_if b x s e = record { at = rw e refl }

pub RunsTo-get_str :
    (k : String) (ps : Params) (v : String) (s : State)
    → member k ps ≡ some (str v)
    → RunsTo (get_str k ps) s (ok v, s)
RunsTo-get_str k ps v s e = record { at = ap (λ m. m s) (get_str-pure k ps v e) }

module _ ⦃p : Platform⦄ where
  pub RunsTo-child :
      (c : Syscall) (s : State) → RunsTo (child c) s (ok (p.runs s.calls c), called s (c ∷ []))
  unfolding child
  RunsTo-child c s = record { at = refl }

  pub RunsTo-must :
      (c : Syscall) (s : State)
      → p.accepts s.calls c ≡ true
      → RunsTo (must c) s (ok tt, called s (c ∷ []))
  unfolding must sys fault_if
  RunsTo-must c s e = record { at = rw e refl }

  pub RunsTo-require_running :
      (xid : ℕ) (s : State)
      → p.vx_info s.calls xid ≡ alive
      → RunsTo (require_running xid) s (ok tt, s)
  unfolding require_running looks
  RunsTo-require_running xid s e = record { at = rw e refl }

  pub RunsTo-fetch :
      (q : Query) (s : State)
      → IsHealthy p
      → query_clean q ≡ true
      → RunsTo (fetch q) s (ok (answer p.arrange q s.db), s)
  RunsTo-fetch q s healthy clean = record { at = fetch_complete q s healthy clean }
