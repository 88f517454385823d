-- ===== src/Auth/Queries.antt =====
-- The yes-or-no queries of auth.c, and the texts that they print.
use vcd.Base.{
  true, not, String, List, ◌≡◌, arith, any, any_of_mem, inl, inr, Option-cases, all_chars,
  all_chars_mono, ◌==◌,
}
use vcd.Sql.{Row, Contents, select, limit_one, Order, holds, row_clean, quote_free}
use vcd.Platform.{Platform, IsHealthy, is_alnum}
use vcd.Validate.{validate_username, validate_name, is_alnumextended}
use vcd.Vxdb.{first_row}
use vcd.Vxdb.Lookup.{first_row_sound, first_row_limit_one, first_row_complete}
use vcd.Auth.{finds}

pub alnum_clean : (s : String) → all_chars is_alnum s ≡ true → quote_free s ≡ true
unfolding quote_free
alnum_clean s h = all_chars_mono is_alnum (λ c. not (c == 39)) (λ c e. ground arith) s h

-- A name that is accepted cannot end a quoted text.
pub validate_name-clean : (s : String) → validate_name s ≡ true → quote_free s ≡ true
unfolding validate_name quote_free
validate_name-clean s h =
    all_chars_mono is_alnumextended (λ c. not (c == 39)) (λ c e. ground arith) s (ground arith)

module _ ⦃p : Platform⦄ where
  pub validate_username-clean : (s : String) → validate_username s ≡ true → quote_free s ≡ true
  unfolding validate_username
  validate_username-clean s h = alnum_clean s (p.str_isalnum_chars s (ground arith))

  pub finds_sound :
      (cols : List String) (t : String) (w : Row) (o : Order) (db : Contents)
      → row_clean w ≡ true
      → finds (select cols t w o) db ≡ true
      → any (holds w) (db t) ≡ true
  unfolding finds
  finds_sound cols t w o db clean e =
      elim (Option-cases (first_row (p.prepare (select cols t w o) db))) [
        | inl nothing ↦ absurd (ground arith)
        | inr (r, found) ↦
            let (x, there, met, _) = first_row_sound cols t w o db r clean found in
            any_of_mem (holds w) (db t) there met
      ]

  pub finds-limit_one :
      (cols : List String) (t : String) (w : Row) (o : Order) (db : Contents)
      → row_clean w ≡ true
      → finds (limit_one (select cols t w o)) db ≡ true
      → any (holds w) (db t) ≡ true
  unfolding finds
  finds-limit_one cols t w o db clean e =
      elim (Option-cases (first_row (p.prepare (limit_one (select cols t w o)) db))) [
        | inl nothing ↦ absurd (ground arith)
        | inr (r, found) ↦
            let (x, there, met) = first_row_limit_one cols t w o db r clean found in
            any_of_mem (holds w) (db t) there met
      ]

  pub finds_complete :
      (cols : List String) (t : String) (w : Row) (o : Order) (db : Contents)
      → IsHealthy p
      → row_clean w ≡ true
      → any (holds w) (db t) ≡ true
      → finds (select cols t w o) db ≡ true
  unfolding finds
  finds_complete cols t w o db healthy clean e =
      let (r, found) = first_row_complete cols t w o db healthy clean e in ground (arith, found)
