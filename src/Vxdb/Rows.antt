-- ===== src/Vxdb/Rows.antt =====
-- The rows of one virtual server, and the statements that touch no other.
use mathlib.Core.List.{append-nil}
use vcd.Base.{
  ℕ, Bool, true, false, not, ◌&&◌, String, List, [], ◌∷◌, ◌++◌, Option, none, some, ◌≡◌, ◌≢◌, refl,
  sym, ap, subst, ◌∙◌, arith, str_equal, str_equal→eq, str_equal_refl, any, all, keep, keep-append,
  keep-keep_of_implies, Bool-cases, inl, inr,
}
use vcd.Base.Int.{ℤ, as_int, as_int-injective, eqb_ℤ_iff}
use vcd.Sql.{
  assign, Value, int, text, Row, Contents, Stmt, insert, replace, delete, update, count, field,
  holds, agrees, conflicts, value_eq, option_eq,
}
use vcd.Sql.Writes.{update_rows, Does, DoesAll, replace_rows, delete_rows}
use vcd.Vxdb.Tables.{vxdb_unique}

abbrev pub of_xid : ℕ → Row
of_xid x = ("xid", int (as_int x)) ∷ []

-- The rows of the virtual server with this context id.
abbrev pub rows_of : ℕ → List Row → List Row
rows_of x rows = keep (holds (of_xid x)) rows

-- The condition or the row starts with this context id.
unfoldable pub heads : ℕ → Row → Bool
heads n [] = false
heads n ((c, v) ∷ r) = str_equal "xid" c && value_eq v (int (as_int n))

abbrev pub has_xid : List String → Bool
has_xid cs = any (λ c. str_equal "xid" c) cs

-- The statement only touches rows of this context id: it is a DELETE or an UPDATE of another column
-- under that condition, an INSERT, or an INSERT OR REPLACE into a table all of whose unique indexes have it.
unfoldable pub is_for : ℕ → Stmt → Bool
is_for n (insert t r) = heads n r
is_for n (replace t r) = heads n r && all has_xid (vxdb_unique t)
is_for n (delete t w) = heads n w
is_for n (update t c v w) = heads n w && not (str_equal "xid" c)
is_for n (count cs) = false

pub heads-field : (n : ℕ) (r : Row) → heads n r ≡ true → field "xid" r ≡ some (int (as_int n))
unfolding heads field
heads-field n [] h = absurd (ground arith)
heads-field n ((c, int z) ∷ r) h = ground (arith, eqb_ℤ_iff z (as_int n))
heads-field n ((c, v) ∷ r) h = absurd (ground arith)

eq_of_option : (a : ℤ) (o : Option Value) → option_eq (some (int a)) o ≡ true → o ≡ some (int a)
eq_of_option a none h = absurd (ground arith)
eq_of_option a (some (text t)) h = absurd (ground arith)
eq_of_option a (some (int z)) h = ground (arith, eqb_ℤ_iff a z)

holds-field : (x : ℕ) (s : Row) → holds (of_xid x) s ≡ true → field "xid" s ≡ some (int (as_int x))
unfolding holds
holds-field x s h = eq_of_option (as_int x) (field "xid" s) (ground arith)

option_eq-other :
    (x n : ℕ) → x ≢ n → option_eq (some (int (as_int n))) (some (int (as_int x))) ≡ false
option_eq-other x n other = ground (arith, eqb_ℤ_iff (as_int n) (as_int x), as_int-injective n x)

same_number : (x n : ℕ) → some (int (as_int x)) ≡ some (int (as_int n)) → x ≡ n
same_number x n e = as_int-injective x n (ground arith)

-- A row of another context id is not in the way of this one.
agrees-other :
    (cs : List String) (r s : Row) (x n : ℕ)
    → has_xid cs ≡ true
    → field "xid" r ≡ some (int (as_int n))
    → field "xid" s ≡ some (int (as_int x))
    → x ≢ n
    → agrees cs r s ≡ false
unfolding agrees any
agrees-other [] r s x n has h o other = absurd (ground arith)
agrees-other (c ∷ cs) r s x n has h o other = elim (Bool-cases (str_equal "xid" c)) [
  | inl here ↦
      let same = str_equal→eq "xid" c here in
      let differs : option_eq (field "xid" r) (field "xid" s) ≡ false =
        rw (h, o) (option_eq-other x n other) in
      ground (arith, subst (λ k. option_eq (field k r) (field k s) ≡ false) same differs)
  | inr there ↦ ground (arith, there, agrees-other cs r s x n (ground (arith, there)) h o other)
]

conflicts-other :
    (ks : List (List String)) (r s : Row) (x n : ℕ)
    → all has_xid ks ≡ true
    → field "xid" r ≡ some (int (as_int n))
    → field "xid" s ≡ some (int (as_int x))
    → x ≢ n
    → conflicts ks r s ≡ false
unfolding conflicts all
conflicts-other [] r s x n keyed h o other = refl
conflicts-other (k ∷ ks) r s x n keyed h o other = ground (
  arith,
  agrees-other k r s x n (ground arith) h o other,
  conflicts-other ks r s x n (ground arith) h o other,
)

rows_of-new : (x n : ℕ) (r : Row) → heads n r ≡ true → x ≢ n → rows_of x (r ∷ []) ≡ []
unfolding keep holds
rows_of-new x n r h other =
    let there = heads-field n r h in
    rw there (ground (arith, option_eq-other n x (λ e. other (sym e))))

rows_of-replace :
    (ks : List (List String)) (r : Row) (x n : ℕ) (rows : List Row)
    → all has_xid ks ≡ true
    → heads n r ≡ true
    → x ≢ n
    → rows_of x (replace_rows ks r rows) ≡ rows_of x rows
unfolding replace_rows
rows_of-replace ks r x n rows keyed h other =
    keep-append (holds (of_xid x)) (keep (λ s. not (conflicts ks r s)) rows) (r ∷ [])
    ∙ ap (λ l. rows_of x (keep (λ s. not (conflicts ks r s)) rows) ++ l) (rows_of-new x n r h other)
    ∙ append-nil _
    ∙ keep-keep_of_implies (holds (of_xid x)) (λ s. not (conflicts ks r s))
        (λ s o.
          ground
            (arith, conflicts-other ks r s x n keyed (heads-field n r h) (holds-field x s o) other))
        rows

holds-other :
    (w s : Row) (x n : ℕ)
    → heads n w ≡ true
    → field "xid" s ≡ some (int (as_int x))
    → x ≢ n
    → holds w s ≡ false
unfolding heads holds
holds-other [] s x n h o other = absurd (ground arith)
holds-other ((c, int z) ∷ w) s x n h o other =
    let same = str_equal→eq "xid" c (ground arith) in
    let is_n : z ≡ as_int n = ground (arith, eqb_ℤ_iff z (as_int n)) in
    let differs : option_eq (some (int z)) (field "xid" s) ≡ false =
      rw (o, is_n) (option_eq-other x n other) in
    ground (arith, subst (λ d. option_eq (some (int z)) (field d s) ≡ false) same differs)
holds-other ((c, v) ∷ w) s x n h o other = absurd (ground arith)

rows_of-delete :
    (w : Row) (x n : ℕ) (rows : List Row)
    → heads n w ≡ true
    → x ≢ n
    → rows_of x (delete_rows w rows) ≡ rows_of x rows
unfolding delete_rows
rows_of-delete w x n rows h other =
    keep-keep_of_implies (holds (of_xid x)) (λ s. not (holds w s))
      (λ s o. ground (arith, holds-other w s x n h (holds-field x s o) other)) rows

field-assign :
    (c : String) (v : Value) (r : Row)
    → str_equal "xid" c ≡ false
    → field "xid" (assign c v r) ≡ field "xid" r
unfolding field assign
field-assign c v [] h = ground (arith, h)
field-assign c v ((d, u) ∷ r) h = elim (Bool-cases (str_equal c d)) [
  | inl same ↦
      subst (λ z. field "xid" (assign c v ((z, u) ∷ r)) ≡ field "xid" ((z, u) ∷ r))
        (str_equal→eq c d same) (ground (arith, h, str_equal_refl c))
  | inr differ ↦ ground (arith, differ, field-assign c v r h)
]

pub holds-assign :
    (c : String) (v : Value) (r : Row) (x : ℕ)
    → str_equal "xid" c ≡ false
    → holds (of_xid x) (assign c v r) ≡ holds (of_xid x) r
unfolding holds
holds-assign c v r x h =
    ap (λ o. option_eq (some (int (as_int x))) o && true) (field-assign c v r h)

rows_of-update :
    (c : String) (v : Value) (w : Row) (x n : ℕ) (rows : List Row)
    → heads n w ≡ true
    → str_equal "xid" c ≡ false
    → x ≢ n
    → rows_of x (update_rows c v w rows) ≡ rows_of x rows
unfolding update_rows keep
rows_of-update c v w x n [] h k other = refl
rows_of-update c v w x n (r ∷ rows) h k other = elim (Bool-cases (holds (of_xid x) r)) [
  | inl mine ↦
      let apart = holds-other w r x n h (holds-field x r mine) other in
      ground (arith, mine, apart, rows_of-update c v w x n rows h k other)
  | inr foreign ↦
      ground (arith, foreign, holds-assign c v r x k, rows_of-update c v w x n rows h k other)
]

-- A new row of another context id is no row of this one.
rows_of-insert :
    (r : Row) (x n : ℕ) (rows : List Row)
    → heads n r ≡ true
    → x ≢ n
    → rows_of x (rows ++ r ∷ []) ≡ rows_of x rows
unfolding keep
rows_of-insert r x n [] h other = elim (Bool-cases (holds (of_xid x) r)) [
  | inl mine ↦ absurd (other (same_number x n (sym (holds-field x r mine) ∙ heads-field n r h)))
  | inr foreign ↦ ground (arith, foreign)
]
rows_of-insert r x n (s ∷ rows) h other = ground (arith, rows_of-insert r x n rows h other)

Does-others :
    (s : Stmt) (x n : ℕ) (c d : Contents)
    → is_for n s ≡ true
    → x ≢ n
    → Does vxdb_unique s c d
    → (t : String) → rows_of x (d t) ≡ rows_of x (c t)
unfolding is_for
Does-others (insert u r) x n c d h other (free, does) t = elim (Bool-cases (str_equal u t)) [
  | inl here ↦
      ap (λ k. rows_of x (k t)) does
      ∙ rw here
          (rows_of-insert r x n (c u) h other ∙ ap (λ k. rows_of x (c k)) (str_equal→eq u t here))
  | inr there ↦ ap (λ k. rows_of x (k t)) does ∙ rw there refl
]
Does-others (replace u r) x n c d h other does t = elim (Bool-cases (str_equal u t)) [
  | inl here ↦
      ap (λ k. rows_of x (k t)) does
      ∙ rw here (
          rows_of-replace (vxdb_unique u) r x n (c u) (ground arith) (ground arith) other
          ∙ ap (λ k. rows_of x (c k)) (str_equal→eq u t here))
  | inr there ↦ ap (λ k. rows_of x (k t)) does ∙ rw there refl
]
Does-others (delete u w) x n c d h other does t = elim (Bool-cases (str_equal u t)) [
  | inl here ↦
      ap (λ k. rows_of x (k t)) does
      ∙ rw here
          (rows_of-delete w x n (c u) h other ∙ ap (λ k. rows_of x (c k)) (str_equal→eq u t here))
  | inr there ↦ ap (λ k. rows_of x (k t)) does ∙ rw there refl
]
Does-others (update u k v w) x n c d h other (free, does) t = elim (Bool-cases (str_equal u t)) [
  | inl here ↦
      ap (λ z. rows_of x (z t)) does
      ∙ rw here (
          rows_of-update k v w x n (c u) (ground arith) (ground arith) other
          ∙ ap (λ z. rows_of x (c z)) (str_equal→eq u t here))
  | inr there ↦ ap (λ z. rows_of x (z t)) does ∙ rw there refl
]
Does-others (count cs) x n c d h other does t = absurd (ground arith)

-- Statements for one virtual server leave the rows of every other one as they are.
pub DoesAll-others :
    (ss : List Stmt) (x n : ℕ) (c d : Contents)
    → all (is_for n) ss ≡ true
    → x ≢ n
    → DoesAll vxdb_unique ss c d
    → (t : String) → rows_of x (d t) ≡ rows_of x (c t)
unfolding all
DoesAll-others [] x n c d h other does t = ap (λ k. rows_of x (k t)) does
DoesAll-others (s ∷ ss) x n c d h other (m, first, rest) t =
    DoesAll-others ss x n m d (ground arith) other rest t
    ∙ Does-others s x n c m (ground arith) other first t
