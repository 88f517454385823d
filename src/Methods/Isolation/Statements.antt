-- ===== src/Methods/Isolation/Statements.antt =====
-- The statements of the methods that configure one virtual server: they are read as they are meant
-- if no text of the request has a quote, and they touch no row of another virtual server.
use vcd.Base.{
  List, false, if◌then◌else◌, ℕ, Bool, true, ◌&&◌, String, [], ◌∷◌, none, some, ◌≡◌, refl, arith,
  all, all_chars_mono, str_equal, Option-cases, inl, inr, not, ◌==◌, Bool-cases,
}
use vcd.Base.Int.{as_int, ℤ, pos}
use vcd.Platform.{Platform, is_digit}
use vcd.Sql.{Stmt, int, text, Row, replace, delete, stmt_clean, row_clean, quote_free}
use vcd.Vxdb.Tables.{vxdb_unique}
use vcd.Vxdb.Rows.{is_for, heads, has_xid}
use vcd.Call.{Params, str, num, flag, member}
use vcd.Methods.{method_empty_params}
use vcd.Methods.Common.{xid_is, or_default}

-- No text of a request has a quote.
unfoldable pub params_clean : Params → Bool
unfolding quote_free
params_clean [] = true
params_clean ((k, str s) ∷ ps) = quote_free s && params_clean ps
params_clean ((k, v) ∷ ps) = params_clean ps

pub member-clean :
    (k : String) (ps : Params) (s : String)
    → params_clean ps ≡ true
    → member k ps ≡ some (str s)
    → quote_free s ≡ true
unfolding params_clean member
member-clean k [] s c e = absurd (ground arith)
member-clean k ((j, str v) ∷ ps) s c e = elim (Bool-cases (str_equal j k)) [
  | inl here ↦ ground (arith, here)
  | inr there ↦ member-clean k ps s (ground arith) (ground (arith, there))
]
member-clean k ((j, num v) ∷ ps) s c e = elim (Bool-cases (str_equal j k)) [
  | inl here ↦ absurd (ground (arith, here))
  | inr there ↦ member-clean k ps s c (ground (arith, there))
]
member-clean k ((j, flag v) ∷ ps) s c e = elim (Bool-cases (str_equal j k)) [
  | inl here ↦ absurd (ground (arith, here))
  | inr there ↦ member-clean k ps s c (ground (arith, there))
]

-- The rules for the text of a statement.
pub row_clean-nil : row_clean [] ≡ true
unfolding row_clean
row_clean-nil = refl

pub row_clean-int :
    (c : String) (z : ℤ) (r : Row) → row_clean r ≡ true → row_clean ((c, int z) ∷ r) ≡ true
unfolding row_clean
row_clean-int c z r h = h

pub row_clean-text :
    (c s : String) (r : Row)
    → quote_free s ≡ true
    → row_clean r ≡ true
    → row_clean ((c, text s) ∷ r) ≡ true
unfolding row_clean
row_clean-text c s r q h = ground arith

pub quote_free-default :
    (s d : String)
    → quote_free s ≡ true
    → quote_free d ≡ true
    → quote_free (or_default (method_empty_params s) d) ≡ true
unfolding method_empty_params
quote_free-default s d q h = ground arith

pub quote_free-decimal : ⦃p : Platform⦄ (n : ℕ) → quote_free (p.decimal (pos n)) ≡ true
unfolding quote_free
quote_free-decimal ⦃p⦄ n =
    all_chars_mono is_digit (λ c. not (c == 39)) (λ c e. ground arith) (p.decimal (pos n))
      (p.decimal_chars n)

pub clean-replace :
    (t : String) (r : Row) → row_clean r ≡ true → all stmt_clean (replace t r ∷ []) ≡ true
unfolding all stmt_clean
clean-replace t r h = ground arith

pub clean-delete :
    (t : String) (w : Row) → row_clean w ≡ true → all stmt_clean (delete t w ∷ []) ≡ true
unfolding all stmt_clean
clean-delete t w h = ground arith

pub for-replace :
    (t : String) (n : ℕ) (r : Row)
    → all has_xid (vxdb_unique t) ≡ true
    → all (is_for n) (replace t (("xid", int (as_int n)) ∷ r) ∷ []) ≡ true
unfolding all is_for heads
for-replace t n r h = ground arith

pub for-delete :
    (t : String) (n : ℕ) (w : Row)
    → all (is_for n) (delete t (("xid", int (as_int n)) ∷ w) ∷ []) ≡ true
unfolding all is_for heads
for-delete t n w = ground arith

pub for-delete_given :
    (t c v : String) (n : ℕ)
    → all (is_for n) (elim (method_empty_params v) [
      | none ↦ delete t (xid_is n) ∷ []
      | some u ↦ delete t (("xid", int (as_int n)) ∷ (c, text u) ∷ []) ∷ []
    ])
      ≡ true
for-delete_given t c v n = elim (Option-cases (method_empty_params v)) [
  | inl none_given ↦ rw none_given (for-delete t n [])
  | inr (u, given) ↦ rw given (for-delete t n ((c, text u) ∷ []))
]

pub clean-delete_given :
    (t c v : String) (n : ℕ)
    → quote_free v ≡ true
    → all stmt_clean (elim (method_empty_params v) [
      | none ↦ delete t (xid_is n) ∷ []
      | some u ↦ delete t (("xid", int (as_int n)) ∷ (c, text u) ∷ []) ∷ []
    ])
      ≡ true
unfolding method_empty_params all stmt_clean row_clean
clean-delete_given t c v n q = ground arith

pub all-if :
    (f : Stmt → Bool) (b : Bool) (ss ts : List Stmt)
    → all f ss ≡ true
    → all f ts ≡ true
    → all f (if b then ss else ts) ≡ true
all-if f true ss ts h k = h
all-if f false ss ts h k = k

-- The rules for one statement: it reads as it is meant, and it is for one virtual server.
pub ruleset statement_rules = (
  row_clean-nil, row_clean-int, row_clean-text, quote_free-default, quote_free-decimal,
  clean-replace, clean-delete, for-replace, for-delete, for-delete_given, clean-delete_given,
  all-if, refl,
)
