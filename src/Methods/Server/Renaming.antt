-- ===== src/Methods/Server/Renaming.antt =====
-- What vx.rename leaves in xid_name_map.
use vcd.Base.{
  ℕ, Bool, true, false, not, ◌&&◌, String, List, [], ◌∷◌, some, ◌≡◌, ◌≢◌, refl, sym, ap, subst, ◌∙◌,
  arith, any, all, ◌==◌, str_equal, str_equal_refl, str_equal→eq, ◌||◌, Option-cases, any_of_mem,
  Bool-cases, inl, inr,
}
use vcd.Platform.{Platform, IsHealthy}
use vcd.Kernel.{Syscall, vx_uname_set}
use vcd.Sql.{
  text, Row, Stmt, Contents, update, assign, holds, field, has_conflict, stmt_clean, row_clean,
  select, unordered,
}
use vcd.Sql.Writes.{DoesAll, update_rows}
use vcd.Validate.{validate_name, validate_xid}
use vcd.Vxdb.{vxdb_getxid, vxdb_getname, vxdb_getvdir, first_row}
use vcd.Vxdb.Tables.{vxdb_unique}
use vcd.Vxdb.Rows.{of_xid, holds-assign}
use vcd.Vxdb.Names.{Maps, names_roundtrip, lookup_unique, name_key}
use vcd.Vxdb.Lookup.{first_row_sound}
use vcd.Auth.Queries.{validate_name-clean}
use vcd.Call.{
  State, ok, M, ◌>>=◌, pure, nil, Params, str, member, external, Reply, fault_if, reads, looks,
  exec_or_fault,
}
use vcd.Call.Sys.{must_if, is_alive}
use vcd.Call.Sys.Steps.{must-then, looks-then}
use vcd.Call.Fetch.{exec_or_fault-then, fault_if-then}
use vcd.Methods.{meinval, meexist}
use vcd.Methods.Common.{require_xid, context_name, text_of}
use vcd.Methods.Gate.{counted}
use vcd.Methods.Passing.{init-then, get_str-then, require_xid-then, reads-then}
use vcd.Methods.Grant.{str-injective}
use vcd.Methods.Server.{m_vx_rename}

abbrev renaming : ℕ → String → List Stmt
renaming n newname = update "xid_name_map" "name" (text newname) (of_xid n) ∷ []

renaming-clean :
    (n : ℕ) (newname : String)
    → validate_name newname ≡ true
    → all stmt_clean (renaming n newname) ≡ true
unfolding all stmt_clean row_clean
renaming-clean n newname h = ground (arith, validate_name-clean newname h)

holds-assign_own :
    (s : String) (r : Row) → holds (("name", text s) ∷ []) (assign "name" (text s) r) ≡ true
unfolding holds assign field
holds-assign_own s [] = ground (arith, str_equal_refl s)
holds-assign_own s ((c, v) ∷ r) = elim (Bool-cases (str_equal "name" c)) [
  | inl here ↦ ground (arith, here, str_equal_refl s)
  | inr there ↦ ground (arith, there, holds-assign_own s r)
]

holds-assign_other :
    (s new : String) (r : Row)
    → str_equal s new ≡ false
    → holds (("name", text s) ∷ []) (assign "name" (text new) r) ≡ false
unfolding holds assign field
holds-assign_other s new [] h = ground (arith, h)
holds-assign_other s new ((c, v) ∷ r) h = elim (Bool-cases (str_equal "name" c)) [
  | inl here ↦ ground (arith, here, h)
  | inr there ↦ ground (arith, there, holds-assign_other s new r h)
]

-- Where only rows of the context id have the old name, none has it after the update.
gone_row :
    (n : ℕ) (s new : String) (rows : List Row)
    → str_equal s new ≡ false
    → all (λ r. not (holds (("name", text s) ∷ []) r) || holds (of_xid n) r) rows ≡ true
    → any (holds (("name", text s) ∷ [])) (update_rows "name" (text new) (of_xid n) rows) ≡ false
unfolding any all update_rows
gone_row n s new [] other only = refl
gone_row n s new (r ∷ rows) other only = elim (Bool-cases (holds (of_xid n) r)) [
  | inl mine ↦ ground (arith, mine, holds-assign_other s new r other, gone_row n s new rows other)
  | inr foreign ↦ ground (arith, foreign, gone_row n s new rows other)
]

-- A row of the context id has the new name after the update.
renamed_row :
    (n : ℕ) (s new : String) (rows : List Row)
    → any (λ r. holds (("name", text s) ∷ []) r && holds (of_xid n) r) rows ≡ true
    → any
        (λ r. holds (("name", text new) ∷ []) r && holds (of_xid n) r)
        (update_rows "name" (text new) (of_xid n) rows)
      ≡ true
unfolding any update_rows
renamed_row n s new [] h = h
renamed_row n s new (r ∷ rows) h = elim (Bool-cases (holds (of_xid n) r)) [
  | inl mine ↦ ground (arith, mine, holds-assign_own new r, holds-assign "name" (text new) r n refl)
  | inr foreign ↦ ground (arith, foreign, renamed_row n s new rows (ground (arith, foreign)))
]

gone :
    (n : ℕ) (s new : String) (c d : Contents)
    → str_equal s new ≡ false
    → Maps c n s
    → has_conflict (vxdb_unique "xid_name_map") (c "xid_name_map") ≡ false
    → DoesAll vxdb_unique (renaming n new) c d
    → any (holds (("name", text s) ∷ [])) (d "xid_name_map") ≡ false
gone n s new c d other maps free (m, (_, first), same) =
    let only =
      lookup_unique (vxdb_unique "xid_name_map") "name" (text s) name_key (of_xid n)
        (c "xid_name_map") free maps in
    subst (λ rs. any (holds (("name", text s) ∷ [])) rs ≡ false)
      (sym (ap (λ z. z "xid_name_map") (same ∙ first)))
      (gone_row n s new (c "xid_name_map") other only)

renamed :
    (n : ℕ) (s new : String) (c d : Contents)
    → Maps c n s
    → DoesAll vxdb_unique (renaming n new) c d
    → Maps d n new × (has_conflict (vxdb_unique "xid_name_map") (d "xid_name_map") ≡ false)
renamed n s new c d maps (m, (free, first), same) =
    let whole = sym (ap (λ z. z "xid_name_map") (same ∙ first)) in
    (
      subst (λ rs. any (λ r. holds (("name", text new) ∷ []) r && holds (of_xid n) r) rs ≡ true)
          whole (renamed_row n s new (c "xid_name_map") maps),
      subst (λ rs. has_conflict (vxdb_unique "xid_name_map") rs ≡ false) whole free,
    )

module _ ⦃p : Platform⦄ where
  differs :
      (db : Contents) (s u : String)
      → vxdb_getxid db s ≢ 0
      → vxdb_getxid db u ≡ 0
      → str_equal s u ≡ false
  differs db s u found unused = elim (Bool-cases (str_equal s u)) [
    | inr other ↦ other
    | inl same ↦ absurd (found (ap (vxdb_getxid db) (str_equal→eq s u same) ∙ unused))
  ]

  valid_of_found : (db : Contents) (s : String) → vxdb_getxid db s ≢ 0 → validate_name s ≡ true
  unfolding vxdb_getxid
  valid_of_found db s found = elim (Bool-cases (validate_name s)) [
    | inl valid ↦ valid
    | inr refused ↦ absurd (found (rw refused refl))
  ]

  getxid-none :
      (db : Contents) (s : String)
      → any (holds (("name", text s) ∷ [])) (db "xid_name_map") ≡ false
      → vxdb_getxid db s ≡ 0
  unfolding vxdb_getxid row_clean
  getxid-none db s none_there = elim (Bool-cases (validate_name s)) [
    | inr refused ↦ rw refused refl
    | inl valid ↦
        let w : Row = ("name", text s) ∷ [] in
        let query = select ("xid" ∷ []) "xid_name_map" w unordered in
        elim (Option-cases (first_row (p.prepare query db))) [
          | inl nothing ↦ rw (valid, nothing) refl
          | inr (r, found) ↦
              let clean : row_clean w ≡ true = ground (arith, validate_name-clean s valid) in
              let (x, there, met, _) =
                first_row_sound ("xid" ∷ []) "xid_name_map" w unordered db r clean found in
              let some_there = any_of_mem (holds w) (db "xid_name_map") there met in
              absurd (ground (arith, none_there, some_there))
        ]
  ]

  must_if-then :
      {B : Type 0} (c : Bool) (call : Syscall) (f : Unit {0} → M B) (s t : State) (b : B)
      → (must_if c call >>= f) s ≡ (ok b, t)
      → (s' : State) × (s'.db ≡ s.db) × (f tt s' ≡ (ok b, t))
  unfolding must_if
  must_if-then true call f s t b e = (_, refl, must-then call f s t b e)
  must_if-then false call f s t b e = (s, refl, e)

  -- The steps of vx.rename behind the gate, for the two names of the request.
  abbrev rename : String → String → M Reply
  rename name newname = fault_if (not (validate_name newname)) meinval >>= λ _.
      reads (λ db. vxdb_getxid db newname) >>= λ taken. fault_if (not (taken == 0)) meexist >>= λ _.
      require_xid name >>= λ xid. exec_or_fault (renaming xid newname) >>= λ _.
      reads (λ db. vxdb_getvdir db newname) >>= λ vdir. looks (λ h. p.vx_info h xid) >>= λ info.
      must_if (is_alive info) (vx_uname_set xid (context_name newname (text_of vdir))) >>= λ _.
      pure nil

  renames :
      (n : ℕ) (name newname : String) (s t : State) (r : Reply)
      → IsHealthy p
      → Maps s.db n name
      → has_conflict (vxdb_unique "xid_name_map") (s.db "xid_name_map") ≡ false
      → validate_xid n ≡ true
      → rename name newname s ≡ (ok r, t)
      → (vxdb_getxid t.db newname ≡ n)
        × (vxdb_getname t.db n ≡ some newname)
        × (vxdb_getxid t.db name ≡ 0)
  renames n name newname s t r healthy maps free valid e =
      let (fits, body) = fault_if-then _ _ _ s t r e in
      let body2 = reads-then _ _ s t r body in
      let (taken, body3) = fault_if-then _ _ _ s t r body2 in
      let (found, body4) = require_xid-then name _ s t r body3 in
      let new_valid : validate_name newname ≡ true = ground (arith, fits) in
      let is_n =
        (names_roundtrip s.db n name healthy free maps (valid_of_found s.db name found) valid).0 in
      let (d, went, body5) =
        exec_or_fault-then (renaming (vxdb_getxid s.db name) newname) _ s t r body4 in
      let does =
        p.exec_sound _ s.db d (renaming-clean (vxdb_getxid s.db name) newname new_valid) went in
      let does_n = subst (λ k. DoesAll vxdb_unique (renaming k newname) s.db d) is_n does in
      let (now, still) = renamed n name newname s.db d maps does_n in
      let unused : vxdb_getxid s.db newname ≡ 0 = ground (arith, taken) in
      let other = differs s.db name newname found unused in
      let old = getxid-none d name (gone n name newname s.db d other maps free does_n) in
      let (there, back) = names_roundtrip d n newname healthy still now new_valid valid in
      let body6 = reads-then _ _ _ t r body5 in
      let body7 = looks-then _ _ _ t r body6 in
      let (s', kept, ended) = must_if-then _ _ _ _ t r body7 in
      let left : d ≡ t.db = sym kept ∙ ap (λ z. z.1.db) ended in
      subst
        (λ c.
          (vxdb_getxid c newname ≡ n)
          × (vxdb_getname c n ≡ some newname)
          × (vxdb_getxid c name ≡ 0))
        left (there, back, old)

  -- When vx.rename succeeds for a client while sqlite answers every query, the two lookups lead from the
  -- new name to the context id that the old name had and back, and the old name leads to none,
  -- provided that the table xid_name_map respected its unique indexes, had a row with the id and the
  -- old name, and the id passes validate_xid.
  pub m_vx_rename-names :
      (credentials params : Params) (n : ℕ) (name newname : String) (s t : State) (r : Reply)
      → IsHealthy p
      → member "name" params ≡ some (str name)
      → member "newname" params ≡ some (str newname)
      → Maps (counted s).db n name
      → has_conflict (vxdb_unique "xid_name_map") ((counted s).db "xid_name_map") ≡ false
      → validate_xid n ≡ true
      → m_vx_rename (external credentials params) s ≡ (ok r, t)
      → (vxdb_getxid t.db newname ≡ n)
        × (vxdb_getname t.db n ≡ some newname)
        × (vxdb_getxid t.db name ≡ 0)
  unfolding m_vx_rename
  m_vx_rename-names credentials params n name newname s t r healthy is_name is_new maps free valid
        e =
      let (s', same, body) = init-then _ _ _ credentials params s t r e in
      let (v, has_name, body2) = get_str-then "name" params _ s' t r body in
      let (w, has_new, body3) = get_str-then "newname" params _ s' t r body2 in
      let old = str-injective v name (sym has_name ∙ is_name) in
      let new = str-injective w newname (sym has_new ∙ is_new) in
      renames n name newname s' t r healthy (subst (λ c. Maps c n name) (sym same) maps)
        (subst (λ c. has_conflict (vxdb_unique "xid_name_map") (c "xid_name_map") ≡ false)
          (sym same) free)
        valid
        (subst (λ k. rename name k s' ≡ (ok r, t)) new
          (subst (λ k. rename k w s' ≡ (ok r, t)) old body3))
