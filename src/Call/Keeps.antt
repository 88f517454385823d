-- ===== src/Call/Keeps.antt =====
-- Invariants of a sequence of steps, one rule for each way to build one.
use vcd.Base.{Bool, true, false, String, ◌≡◌, refl, arith, if◌then◌else◌}
use vcd.Sql.{Contents}
use vcd.Call.{
  State, Fault, Result, ok, fault, M, pure, raise, asks, continue, ◌>>=◌, fault_if, Params, get_str,
  get_int, get_bool,
}

-- `m` keeps `P`, whether it succeeds or sets a fault.
pub record Keeps (P : State → Type 0) {A : Type 0} (m : M A) : Type 0 where
  pub at : (s : State) → P s → P (m s).1

module _ {P : State → Type 0} {A : Type 0} where
  pub Keeps-pure : (a : A) → Keeps P (pure a)
  Keeps-pure a = record { at = λ s h. h }

  pub Keeps-raise : (f : Fault) → Keeps P (raise {A = A} f)
  Keeps-raise f = record { at = λ s h. h }

  pub Keeps-asks : (f : Contents → A) → Keeps P (asks f)
  Keeps-asks f = record { at = λ s h. h }

  pub Keeps-if : (b : Bool) (m n : M A) → Keeps P m → Keeps P n → Keeps P (if b then m else n)
  Keeps-if true m n km kn = km
  Keeps-if false m n km kn = kn

module _ {P : State → Type 0} where
  pub Keeps-fault_if : (b : Bool) (f : Fault) → Keeps P (fault_if b f)
  unfolding fault_if
  Keeps-fault_if true f = record { at = λ s h. h }
  Keeps-fault_if false f = record { at = λ s h. h }

  pub Keeps-get_str : (k : String) (ps : Params) → Keeps P (get_str k ps)
  unfolding get_str
  Keeps-get_str k ps = record { at = λ s h. ground arith }

  pub Keeps-get_int : (k : String) (ps : Params) → Keeps P (get_int k ps)
  unfolding get_int
  Keeps-get_int k ps = record { at = λ s h. ground arith }

  pub Keeps-get_bool : (k : String) (ps : Params) → Keeps P (get_bool k ps)
  unfolding get_bool
  Keeps-get_bool k ps = record { at = λ s h. ground arith }

module _ {P : State → Type 0} {A B : Type 0} where
  keeps_rest :
      (r : Result A) (f : A → M B) (s : State)
      → P s
      → ((a : A) → r ≡ ok a → Keeps P (f a))
      → P (continue r f s).1
  keeps_rest (ok a) f s h k = (k a refl).at s h
  keeps_rest (fault x) f s h k = h

  pub Keeps-bind :
      (m : M A) (f : A → M B) → Keeps P m → ((a : A) → Keeps P (f a)) → Keeps P (m >>= f)
  Keeps-bind m f km kf = record {
    at = λ s h. keeps_rest (m s).0 f (m s).1 (km.at s h) (λ a _. kf a);
  }

pub ruleset keeps_rules = (
  Keeps-pure, Keeps-raise, Keeps-asks, Keeps-if, Keeps-fault_if, Keeps-get_str, Keeps-get_int,
  Keeps-get_bool, Keeps-bind,
)
