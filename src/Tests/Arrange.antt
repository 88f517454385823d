-- ===== src/Tests/Arrange.antt =====
-- ORDER BY on the platform of the tests: the greatest row first, which is all that is assumed of it.
use mathlib.Core.List.{Perm, Mem}
use mathlib.Core.List.Perm
use vcd.Base.{
  Bool, true, false, not, ◌&&◌, String, List, [], ◌∷◌, Option, none, some, ◌≡◌, refl, arith,
  if◌then◌else◌, all, holds_of_mem-all, Bool-cases, inl, inr, subst,
}
use vcd.Base.Int.{ℤ, ltb_ℤ, ◌≤ℤ◌}
use vcd.Sql.{Value, int, text, Row, Order, unordered, asc, desc, field}

-- The order of sqlite: NULL, then integers, then texts. Texts are not told apart.
abbrev pub precedes : Option Value → Option Value → Bool
precedes none b = true
precedes (some (int a)) (some (int b)) = not (ltb_ℤ b a)
precedes (some (int a)) (some (text t)) = true
precedes (some (text s)) (some (text t)) = true
precedes (some v) b = false

-- The first row is put behind the next one, if it has to be.
abbrev pub settle : String → Row → List Row → List Row
settle c r [] = r ∷ []
settle c r (x ∷ xs) = if precedes (field c r) (field c x) then x ∷ r ∷ xs else r ∷ x ∷ xs

-- The greatest row comes first.
unfoldable pub greatest_first : String → List Row → List Row
greatest_first c [] = []
greatest_first c (r ∷ rs) = settle c r (greatest_first c rs)

unfoldable pub arrange_rows : Order → List Row → List Row
unfolding greatest_first
arrange_rows unordered rs = rs
arrange_rows (asc c) rs = rs
arrange_rows (desc c) rs = greatest_first c rs

settle-Perm : (c : String) (r : Row) (rs : List Row) → Perm (settle c r rs) (r ∷ rs)
settle-Perm c r [] = Perm.refl (r ∷ [])
settle-Perm c r (x ∷ xs) = settled (precedes (field c r) (field c x))
  where
    settled : (b : Bool) → Perm (if b then x ∷ r ∷ xs else r ∷ x ∷ xs) (r ∷ x ∷ xs)
    settled true = Perm.swap r x xs
    settled false = Perm.refl (r ∷ x ∷ xs)

greatest_first-Perm : (c : String) (rs : List Row) → Perm (greatest_first c rs) rs
unfolding greatest_first
greatest_first-Perm c [] = Perm.refl []
greatest_first-Perm c (r ∷ rs) =
    Perm.trans (settle-Perm c r (greatest_first c rs)) (Perm.cons r (greatest_first-Perm c rs))

pub arrange_rows-Perm : (o : Order) (rs : List Row) → Perm (arrange_rows o rs) rs
unfolding arrange_rows
arrange_rows-Perm unordered rs = Perm.refl rs
arrange_rows-Perm (asc c) rs = Perm.refl rs
arrange_rows-Perm (desc c) rs = greatest_first-Perm c rs

precedes_total : (a b : Option Value) → precedes a b ≡ false → precedes b a ≡ true
precedes_total none b h = absurd (ground arith)
precedes_total (some a) none h = refl
precedes_total (some (int a)) (some (int b)) h = ground arith
precedes_total (some (int a)) (some (text t)) h = absurd (ground arith)
precedes_total (some (text s)) (some (int b)) h = refl
precedes_total (some (text s)) (some (text t)) h = absurd (ground arith)

precedes_trans :
    (a b c : Option Value) → precedes a b ≡ true → precedes b c ≡ true → precedes a c ≡ true
precedes_trans none b c h k = refl
precedes_trans (some a) none c h k = absurd (ground arith)
precedes_trans (some (int a)) (some (int b)) (some (int c)) h k = ground arith
precedes_trans (some a) (some (int b)) none h k = absurd (ground arith)
precedes_trans (some a) (some (text t)) none h k = absurd (ground arith)
precedes_trans (some (int a)) (some b) (some (text u)) h k = refl
precedes_trans (some (int a)) (some (text t)) (some (int c)) h k = absurd (ground arith)
precedes_trans (some (text s)) (some (int b)) c h k = absurd (ground arith)
precedes_trans (some (text s)) (some (text t)) (some (int c)) h k = absurd (ground arith)
precedes_trans (some (text s)) (some (text t)) (some (text u)) h k = refl

precedes_refl : (a : Option Value) → precedes a a ≡ true
precedes_refl none = refl
precedes_refl (some (int a)) = ground arith
precedes_refl (some (text s)) = refl

all_below :
    (c : String) (x y : Row) (rs : List Row)
    → precedes (field c x) (field c y) ≡ true
    → all (λ q. precedes (field c q) (field c x)) rs ≡ true
    → all (λ q. precedes (field c q) (field c y)) rs ≡ true
unfolding all
all_below c x y [] h k = refl
all_below c x y (r ∷ rs) h k =
    ground (
      arith,
      precedes_trans (field c r) (field c x) (field c y),
      all_below c x y rs h (ground arith),
    )

greatest_first-nil : (c : String) (rs : List Row) → greatest_first c rs ≡ [] → rs ≡ []
greatest_first-nil c rs e =
    Perm.eq-nil (Perm.symm (subst (λ l. Perm l rs) e (greatest_first-Perm c rs)))

-- The head of a list that was settled is the greatest of all.
settled-greatest :
    (c : String) (r x : Row) (rs xs ys : List Row)
    → greatest_first c rs ≡ ys
    → settle c r ys ≡ x ∷ xs
    → ((y : Row) (zs : List Row)
        → greatest_first c rs ≡ y ∷ zs
        → all (λ q. precedes (field c q) (field c y)) rs ≡ true)
    → all (λ q. precedes (field c q) (field c x)) (r ∷ rs) ≡ true
unfolding all
settled-greatest c r x rs xs [] e h ih =
    let nothing = greatest_first-nil c rs e in
    let same : r ≡ x = ground (arith, h) in
    subst
      (λ z.
        (precedes (field c r) (field c z) && all (λ q. precedes (field c q) (field c z)) rs) ≡ true)
      same (rw nothing (ground (arith, precedes_refl (field c r))))
settled-greatest c r x rs xs (y ∷ ys) e h ih =
    elim (Bool-cases (precedes (field c r) (field c y))) [
      | inl under ↦
          let same : y ≡ x = ground (arith, h, under) in
          subst
            (λ z.
              (precedes (field c r) (field c z) && all (λ q. precedes (field c q) (field c z)) rs)
              ≡ true)
            same (ground (arith, under, ih y ys e))
      | inr over ↦
          let same : r ≡ x = ground (arith, h, over) in
          let below =
            all_below c y r rs (precedes_total (field c r) (field c y) over) (ih y ys e) in
          subst
            (λ z.
              (precedes (field c r) (field c z) && all (λ q. precedes (field c q) (field c z)) rs)
              ≡ true)
            same (ground (arith, precedes_refl (field c r), below))
    ]

greatest_first-greatest :
    (c : String) (rs xs : List Row) (x : Row)
    → greatest_first c rs ≡ x ∷ xs
    → all (λ q. precedes (field c q) (field c x)) rs ≡ true
unfolding greatest_first
greatest_first-greatest c [] xs x e = absurd (ground arith)
greatest_first-greatest c (r ∷ rs) xs x e =
    settled-greatest c r x rs xs (greatest_first c rs) refl e
      (λ y zs f. greatest_first-greatest c rs zs y f)

pub arrange_rows-greatest :
    (c : String) (rs rest : List Row) (r q : Row) (a b : ℤ)
    → arrange_rows (desc c) rs ≡ r ∷ rest
    → Mem q rs
    → field c q ≡ some (int a)
    → field c r ≡ some (int b)
    → a ≤ℤ b
unfolding arrange_rows
arrange_rows-greatest c rs rest r q a b e there is_a is_b =
    let below = holds_of_mem-all _ rs (greatest_first-greatest c rs rest r e) there in
    let plain : precedes (some (int a)) (some (int b)) ≡ true = rw (is_a, is_b) at below in
    ground (arith, plain)
