-- ===== src/Vxdb/Names.antt =====
-- The table xid_name_map: a name has one context id, and a context id one name.
use vcd.Base.{
  ℕ, ◌<◌, ◌%◌, ◌^◌, Bool, true, false, not, ◌&&◌, ◌||◌, String, List, [], ◌∷◌, Option, none, some,
  ◌≡◌, refl, sym, ap, subst, ◌∙◌, arith, any, Bool-cases, all, holds_of_mem-all, inl, inr,
  str_equal, str_equal_refl, str_equal→eq,
}
use vcd.Base.Int.{ℤ, as_int, as_int-small, eqb_ℤ_iff}
use vcd.Platform.{Platform, IsHealthy}
use vcd.Sql.{
  Value, int, text, Row, Contents, field, holds, agrees, conflicts, has_conflict, option_eq,
  unordered, row_clean,
}
use vcd.Sql.Answers.{project}
use vcd.Vxdb.{vxdb_getxid, vxdb_getname, vxdb_column_uint32, vxdb_column_text, column}
use vcd.Vxdb.Tables.{vxdb_unique}
use vcd.Vxdb.Lookup.{first_row_sound, first_row_complete}
use vcd.Auth.Queries.{validate_name-clean}
use vcd.Validate.{validate_name, validate_xid}

option_eq_sym_trans :
    (v : Value) (a b : Option Value)
    → option_eq (some v) a ≡ true
    → option_eq (some v) b ≡ true
    → option_eq a b ≡ true
option_eq_sym_trans v none b h k = absurd (ground arith)
option_eq_sym_trans v (some a) none h k = absurd (ground arith)
option_eq_sym_trans (int z) (some (int a)) (some (int b)) h k =
    ground (arith, eqb_ℤ_iff z a, eqb_ℤ_iff z b, eqb_ℤ_iff a b)
option_eq_sym_trans (text z) (some (text a)) (some (text b)) h k =
    let p = str_equal→eq z a h in
    let q = str_equal→eq z b k in subst (λ w. str_equal a w ≡ true) (sym p ∙ q) (str_equal_refl a)
option_eq_sym_trans (int z) (some (text a)) b h k = absurd (ground arith)
option_eq_sym_trans (text z) (some (int a)) b h k = absurd (ground arith)
option_eq_sym_trans (int z) (some (int a)) (some (text b)) h k = absurd (ground arith)
option_eq_sym_trans (text z) (some (text a)) (some (int b)) h k = absurd (ground arith)

any_mono :
    (f g : Row → Bool) (rows : List Row)
    → ((r : Row) → f r ≡ true → g r ≡ true)
    → any f rows ≡ true
    → any g rows ≡ true
unfolding any
any_mono f g [] h e = e
any_mono f g (r ∷ rows) h e = ground (arith, h r, any_mono f g rows h)

module _ (ks : List (List String)) (c : String) (v : Value)
    (key : (r s : Row) → agrees (c ∷ []) r s ≡ true → conflicts ks r s ≡ true) where
  -- Two rows with this value in the key column are in each other's way.
  conflict_of_key :
      (r s : Row)
      → holds ((c, v) ∷ []) r ≡ true
      → holds ((c, v) ∷ []) s ≡ true
      → conflicts ks r s ≡ true
  unfolding holds agrees
  conflict_of_key r s h k =
      let same = option_eq_sym_trans v (field c r) (field c s) (ground arith) (ground arith) in
      key r s (ground (arith, same))

  -- A row with this value that meets `w` is the only one with this value.
  abbrev pub meets : Row → Row → Bool
  meets w r = not (holds ((c, v) ∷ []) r) || holds w r

  meets_after :
      (w r : Row) (rows : List Row)
      → holds ((c, v) ∷ []) r ≡ true
      → any (conflicts ks r) rows ≡ false
      → all (meets w) rows ≡ true
  unfolding any all
  meets_after w r [] h none_there = refl
  meets_after w r (s ∷ rows) h none_there =
      ground (arith, conflict_of_key r s h, meets_after w r rows h (ground arith))

  pub lookup_unique :
      (w : Row) (rows : List Row)
      → has_conflict ks rows ≡ false
      → any (λ r. holds ((c, v) ∷ []) r && holds w r) rows ≡ true
      → all (meets w) rows ≡ true
  unfolding has_conflict any all
  lookup_unique w [] free e = refl
  lookup_unique w (r ∷ rows) free e = elim (Bool-cases (holds ((c, v) ∷ []) r)) [
    | inr other ↦ ground (arith, other, lookup_unique w rows (ground arith))
    | inl here ↦ elim (Bool-cases (holds w r)) [
      | inl met ↦ ground (arith, met, meets_after w r rows here (ground arith))
      | inr unmet ↦
          let clash =
            any_mono (λ s. holds ((c, v) ∷ []) s && holds w s) (conflicts ks r) rows
              (λ s h. conflict_of_key r s here (ground (arith, h))) in
          absurd (ground (arith, here, unmet, clash))
    ]
  ]

pub name_key :
    (r s : Row)
    → agrees ("name" ∷ []) r s ≡ true
    → conflicts (vxdb_unique "xid_name_map") r s ≡ true
unfolding agrees conflicts vxdb_unique
name_key r s h = ground arith

xid_key :
    (r s : Row) → agrees ("xid" ∷ []) r s ≡ true → conflicts (vxdb_unique "xid_name_map") r s ≡ true
unfolding agrees conflicts vxdb_unique
xid_key r s h = ground arith

field-int :
    (c : String) (a : ℤ) (r : Row) → holds ((c, int a) ∷ []) r ≡ true → field c r ≡ some (int a)
unfolding holds
field-int c a r h = int_of (field c r) (ground arith)
  where
    int_of : (o : Option Value) → option_eq (some (int a)) o ≡ true → o ≡ some (int a)
    int_of none e = absurd (ground arith)
    int_of (some (text t)) e = absurd (ground arith)
    int_of (some (int z)) e = ground (arith, eqb_ℤ_iff a z)

field-text :
    (c s : String) (r : Row) → holds ((c, text s) ∷ []) r ≡ true → field c r ≡ some (text s)
unfolding holds
field-text c s r h = text_of (field c r) (ground arith)
  where
    text_of : (o : Option Value) → option_eq (some (text s)) o ≡ true → o ≡ some (text s)
    text_of none e = absurd (ground arith)
    text_of (some (int z)) e = absurd (ground arith)
    text_of (some (text t)) e = ap (λ u. some (text u)) (sym (str_equal→eq s t e))

-- The table has a row with this context id and this name.
abbrev pub Maps : Contents → ℕ → String → Type 0
Maps db n s =
    any (λ r. holds (("name", text s) ∷ []) r && holds (("xid", int (as_int n)) ∷ []) r)
      (db "xid_name_map")
    ≡ true

swap-Maps :
    (db : Contents) (n : ℕ) (s : String)
    → Maps db n s
    → any
        (λ r. holds (("xid", int (as_int n)) ∷ []) r && holds (("name", text s) ∷ []) r)
        (db "xid_name_map")
      ≡ true
swap-Maps db n s h =
    any_mono (λ r. holds (("name", text s) ∷ []) r && holds (("xid", int (as_int n)) ∷ []) r)
      (λ r. holds (("xid", int (as_int n)) ∷ []) r && holds (("name", text s) ∷ []) r)
      (db "xid_name_map") (λ r e. ground (arith, e)) h

name_clean : (s : String) → validate_name s ≡ true → row_clean (("name", text s) ∷ []) ≡ true
unfolding row_clean
name_clean s h = ground (arith, validate_name-clean s h)

xid_clean : (n : ℕ) → row_clean (("xid", int (as_int n)) ∷ []) ≡ true
unfolding row_clean
xid_clean n = refl

wrapped : (n : ℕ) → n < 65535 → n % 2 ^ 32 ≡ n
wrapped n h = omega arith

module _ ⦃p : Platform⦄ (db : Contents) (n : ℕ) (s : String) where
  getxid-Maps :
      IsHealthy p
      → has_conflict (vxdb_unique "xid_name_map") (db "xid_name_map") ≡ false
      → Maps db n s
      → validate_name s ≡ true
      → validate_xid n ≡ true
      → vxdb_getxid db s ≡ n
  unfolding vxdb_getxid project vxdb_column_uint32 column validate_xid
  getxid-Maps healthy free maps valid valid_xid =
      let w = ("name", text s) ∷ [] in
      let named =
        any_mono (λ r. holds w r && holds (("xid", int (as_int n)) ∷ []) r) (holds w)
          (db "xid_name_map") (λ r e. ground (arith, e)) maps in
      let (r, found) =
        first_row_complete ("xid" ∷ []) "xid_name_map" w unordered db healthy (name_clean s valid)
          named in
      let (x, there, met, is_r) =
        first_row_sound ("xid" ∷ []) "xid_name_map" w unordered db r (name_clean s valid) found in
      let only =
        lookup_unique (vxdb_unique "xid_name_map") "name" (text s) name_key
          (("xid", int (as_int n)) ∷ []) (db "xid_name_map") free maps in
      let meets = holds_of_mem-all _ (db "xid_name_map") only there in
      let value = field-int "xid" (as_int n) x (ground (arith, met, meets)) in
      rw (valid, found, is_r, value, as_int-small n (ground arith)) (wrapped n (ground arith))

  getname-Maps :
      IsHealthy p
      → has_conflict (vxdb_unique "xid_name_map") (db "xid_name_map") ≡ false
      → Maps db n s
      → validate_xid n ≡ true
      → vxdb_getname db n ≡ some s
  unfolding vxdb_getname project vxdb_column_text column
  getname-Maps healthy free maps valid_xid =
      let w = ("xid", int (as_int n)) ∷ [] in
      let swapped = swap-Maps db n s maps in
      let there_is =
        any_mono (λ r. holds w r && holds (("name", text s) ∷ []) r) (holds w) (db "xid_name_map")
          (λ r e. ground (arith, e)) swapped in
      let (r, found) =
        first_row_complete ("name" ∷ []) "xid_name_map" w unordered db healthy (xid_clean n)
          there_is in
      let (x, there, met, is_r) =
        first_row_sound ("name" ∷ []) "xid_name_map" w unordered db r (xid_clean n) found in
      let only =
        lookup_unique (vxdb_unique "xid_name_map") "xid" (int (as_int n)) xid_key
          (("name", text s) ∷ []) (db "xid_name_map") free swapped in
      let meets = holds_of_mem-all _ (db "xid_name_map") only there in
      let value = field-text "name" s x (ground (arith, met, meets)) in
      rw (valid_xid, found, is_r, value) refl

  -- While sqlite answers every query, and the table xid_name_map respects its unique indexes,
  -- vxdb_getxid and vxdb_getname lead from the name of a row to its context id and back, if the two
  -- pass their checks.
  pub names_roundtrip :
      IsHealthy p
      → has_conflict (vxdb_unique "xid_name_map") (db "xid_name_map") ≡ false
      → Maps db n s
      → validate_name s ≡ true
      → validate_xid n ≡ true
      → (vxdb_getxid db s ≡ n) × (vxdb_getname db n ≡ some s)
  names_roundtrip healthy free maps valid valid_xid =
      (getxid-Maps healthy free maps valid valid_xid, getname-Maps healthy free maps valid_xid)
