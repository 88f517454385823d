-- ===== src/Vxdb/Stable.antt =====
-- What a lookup finds depends on the table that it reads, and on nothing else.
use vcd.Base.{
  true, String, List, [], ◌∷◌, map, Option, none, some, ◌≡◌, refl, sym, ap, ◌∙◌, arith, keep,
  Bool-cases, inl, inr,
}
use vcd.Platform.{Platform, IsHealthy}
use vcd.Sql.{text, Row, Contents, Order, Query, select, unordered, holds, query_clean, row_clean}
use vcd.Sql.Answers.{Record, Steps, row, busy, done, failed, Runs, Completes, answer, project}
use vcd.Vxdb.{first_row, vxdb_step, head_row, vxdb_getxid}
use vcd.Validate.{validate_name, validate_username}
use vcd.Auth.{auth_getuid}
use vcd.Auth.Queries.{validate_name-clean, validate_username-clean}

abbrev head_of : List Record → Option Record
head_of [] = none
head_of (r ∷ rs) = some r

head_of_steps :
    (rs : List Record) (s : Steps) → Runs rs s → Completes s → head_row (vxdb_step s) ≡ head_of rs
unfolding vxdb_step
head_of_steps rs (busy s) h c = head_of_steps rs s h c
head_of_steps [] (row r s) h c = elim h [ ]
head_of_steps (q ∷ rs) (row r s) h c = ap some h.0
head_of_steps [] done h c = refl
head_of_steps (q ∷ rs) done h c = elim h [ ]
head_of_steps rs failed h c = elim c [ ]

module _ ⦃p : Platform⦄ (healthy : IsHealthy p) where
  first_row-answer :
      (q : Query) (db : Contents)
      → query_clean q ≡ true
      → first_row (p.prepare q db) ≡ head_of (answer p.arrange q db)
  unfolding first_row
  first_row-answer q db clean =
      let (steps, prepared, completes) = healthy.prepare_total q db clean in
      rw prepared (head_of_steps _ steps (p.prepare_sound q db steps clean prepared) completes)

  first_row-same :
      (cols : List String) (t : String) (w : Row) (o : Order) (c d : Contents)
      → row_clean w ≡ true
      → c t ≡ d t
      → first_row (p.prepare (select cols t w o) c) ≡ first_row (p.prepare (select cols t w o) d)
  unfolding query_clean answer
  first_row-same cols t w o c d clean same =
      first_row-answer (select cols t w o) c clean
      ∙ ap (λ rs. head_of (map (project cols) (p.arrange o (keep (holds w) rs)))) same
      ∙ sym (first_row-answer (select cols t w o) d clean)

  pub auth_getuid-same :
      (user : String) (c d : Contents)
      → c "user" ≡ d "user"
      → auth_getuid c user ≡ auth_getuid d user
  unfolding auth_getuid row_clean
  auth_getuid-same user c d same = elim (Bool-cases (validate_username user)) [
    | inr invalid ↦ rw invalid refl
    | inl valid ↦
        let found =
          first_row-same ("uid" ∷ []) "user" (("name", text user) ∷ []) unordered c d
            (ground (arith, validate_username-clean user valid)) same in
        rw (valid, found) refl
  ]

  pub vxdb_getxid-same :
      (name : String) (c d : Contents)
      → c "xid_name_map" ≡ d "xid_name_map"
      → vxdb_getxid c name ≡ vxdb_getxid d name
  unfolding vxdb_getxid row_clean
  vxdb_getxid-same name c d same = elim (Bool-cases (validate_name name)) [
    | inr invalid ↦ rw invalid refl
    | inl valid ↦
        let found =
          first_row-same ("xid" ∷ []) "xid_name_map" (("name", text name) ∷ []) unordered c d
            (ground (arith, validate_name-clean name valid)) same in
        rw (valid, found) refl
  ]
