-- ===== src/Base/Members.antt =====
-- Membership in a list against the Boolean tests on it.
use mathlib.Core.Path.{◌≡◌, refl, sym, ap, subst, ◌∙◌}
use mathlib.Core.Logic.Or
use mathlib.Core.Bool.{Bool, true, Bool-set, false}
use mathlib.Core.List.{
  List, [], ◌∷◌, Mem, Mem-prop, mem-cons, not-mem-nil, mem-cons_self, mem-cons_of_mem,
}
use mathlib.Core.HLevel.{×_prop}
use native.Mathlib.Omega.{arith}
use vcd.Base.Tests.{if◌then◌else◌}
use vcd.Base.Lists.{any, all, keep}

module _ {ℓ} {A : Type ℓ} (p : A → Bool) where
  pub any_of_mem : {a : A} (xs : List A) → Mem a xs → p a ≡ true → any p xs ≡ true
  unfolding any
  any_of_mem [] m h = absurd (not-mem-nil m)
  any_of_mem (x ∷ xs) m h =
      Or.elim (Bool-set _ _) (mem-cons.0 m) (λ e. ground (arith, ap p e))
        (λ m'. ground (arith, any_of_mem xs m' h))

  -- The head of a list, kept or dropped by the answer of the test.
  mem_of_mem-kept :
      {a : A} (x : A) (b : Bool) (rest xs : List A)
      → p x ≡ b
      → (Mem a rest → (p a ≡ true) × Mem a xs)
      → Mem a (if b then x ∷ rest else rest)
      → (p a ≡ true) × Mem a (x ∷ xs)
  mem_of_mem-kept x true rest xs e ih m =
      Or.elim (×_prop (Bool-set _ _) Mem-prop) (mem-cons.0 m)
        (λ same. (ap p same ∙ e, subst (λ y. Mem y (x ∷ xs)) (sym same) mem-cons_self))
        (λ m'. ((ih m').0, mem-cons_of_mem x (ih m').1))
  mem_of_mem-kept x false rest xs e ih m = ((ih m).0, mem-cons_of_mem x (ih m).1)

  pub mem-keep : {a : A} (xs : List A) → Mem a (keep p xs) → (p a ≡ true) × Mem a xs
  unfolding keep
  mem-keep [] m = absurd (not-mem-nil m)
  mem-keep (x ∷ xs) m = mem_of_mem-kept x (p x) (keep p xs) xs refl (mem-keep xs) m

  pub holds_of_mem-all : {a : A} (xs : List A) → all p xs ≡ true → Mem a xs → p a ≡ true
  unfolding all
  holds_of_mem-all [] h m = absurd (not-mem-nil m)
  holds_of_mem-all (x ∷ xs) h m =
      Or.elim (Bool-set _ _) (mem-cons.0 m) (λ e. ground (arith, ap p e))
        (λ m'. holds_of_mem-all xs (ground arith) m')
