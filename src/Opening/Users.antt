-- ===== src/Opening/Users.antt =====
-- The users that a database has once the daemon has started.
use mathlib.Core.Option.{some-injective}
use vcd.Base.{
  ℕ, true, false, not, ◌&&◌, ◌||◌, String, List, [], ◌∷◌, Option, none, some, ◌≡◌, ◌≢◌, refl, ap,
  subst, ◌∙◌, arith, any, any-append, all, Bool-cases, inl, inr,
}
use vcd.Base.Int.{ℤ, pos}
use vcd.Sql.{
  Row, Contents, Stmt, int, text, unordered, holds, stmt_clean, row_clean, field, quote_free,
}
use vcd.Sql.Writes.{DoesAll}
use vcd.Vxdb.Tables.{vxdb_tables, set_version, vxdb_unique}
use vcd.Vxdb.Inserts.{inserted, only_inserts, DoesAll-grows}
use vcd.Platform.{Platform}
use vcd.Auth.{finds, auth_getnextuid}
use vcd.Auth.Queries.{finds_sound, finds-limit_one}
use vcd.Opening.{
  also, user_row, caps_of, admin_caps, user_query, admin_query, vshelper_query, vxdb_create_user,
  user_or_new, check_users, check_tables, vxdb_sanity_check, with_version, version_fits,
  is_unversioned, any_table,
}

also-then :
    (o : Option Contents) (f : Contents → Option Contents) (d : Contents)
    → also o f ≡ some d
    → (c : Contents) × (o ≡ some c) × (f c ≡ some d)
also-then none f d e = absurd (ground arith)
also-then (some c) f d e = (c, refl, e)

abbrev pub IsAdmin : Row
IsAdmin = ("admin", int (pos 1)) ∷ []

abbrev pub IsHelper : Row
IsHelper = ("name", text "vshelper") ∷ []

-- Some user meets the condition.
abbrev pub HasUser : Row → Contents → Type 0
HasUser w db = any (holds w) (db "user") ≡ true

abbrev KeepsUsers : Contents → Contents → Type 0
KeepsUsers c d = (w : Row) → HasUser w c → HasUser w d

caps_only : (uid : ℤ) (cs : List String) → only_inserts (caps_of uid cs) ≡ true
caps_only uid [] = refl
caps_only uid (c ∷ cs) = caps_only uid cs

grown :
    (ss : List Stmt) (c d : Contents)
    → only_inserts ss ≡ true
    → DoesAll vxdb_unique ss c d
    → KeepsUsers c d × ((w : Row) → any (holds w) (inserted "user" ss) ≡ true → HasUser w d)
grown ss c d only does =
    let adds = DoesAll-grows ss "user" c d only does in
    (
      λ w old.
          ap (any (holds w)) adds
          ∙ any-append (holds w) (c "user") (inserted "user" ss)
          ∙ rw old refl,
      λ w new.
          ap (any (holds w)) adds
          ∙ any-append (holds w) (c "user") (inserted "user" ss)
          ∙ rw new (ground arith),
    )

module _ ⦃p : Platform⦄ where
  IsAdmin-made :
      (c d : Contents) → vxdb_create_user "admin" c ≡ some d → KeepsUsers c d × HasUser IsAdmin d
  unfolding vxdb_create_user all stmt_clean row_clean quote_free inserted any holds field
  IsAdmin-made c d e =
      let ss = user_row (auth_getnextuid c) "admin" 1 ∷ caps_of (auth_getnextuid c) admin_caps in
      let (kept, new) = grown ss c d refl (p.exec_sound ss c d refl e) in (kept, new IsAdmin refl)

  IsHelper-made :
      (c d : Contents)
      → vxdb_create_user "vshelper" c ≡ some d
      → KeepsUsers c d × HasUser IsHelper d
  unfolding vxdb_create_user all stmt_clean row_clean quote_free inserted any holds field
  IsHelper-made c d e =
      let ss =
        user_row (auth_getnextuid c) "vshelper" 0 ∷ caps_of (auth_getnextuid c) ("HELPER" ∷ []) in
      let (kept, new) = grown ss c d refl (p.exec_sound ss c d refl e) in (kept, new IsHelper refl)

  IsAdmin-there : (c d : Contents) → user_or_new admin_query "admin" c ≡ some d → HasUser IsAdmin d
  unfolding user_or_new row_clean
  IsAdmin-there c d e = elim (Bool-cases (finds admin_query c)) [
    | inl there ↦
        let same : some c ≡ some d = rw (there, user_or_new) at e in
        let met = finds-limit_one ("uid" ∷ []) "user" IsAdmin unordered c refl there in
        ground (arith, same, met)
    | inr absent ↦ (IsAdmin-made c d (rw (absent, user_or_new) at e)).1
  ]

  IsHelper-there :
      (c d : Contents)
      → user_or_new vshelper_query "vshelper" c ≡ some d
      → KeepsUsers c d × HasUser IsHelper d
  unfolding user_or_new row_clean quote_free
  IsHelper-there c d e = elim (Bool-cases (finds vshelper_query c)) [
    | inl there ↦
        let same : some c ≡ some d = rw (there, user_or_new) at e in
        let is : c ≡ d = some-injective _ _ same in
        let met = finds_sound ("uid" ∷ []) "user" IsHelper unordered c refl there in
        (λ w h. subst (HasUser w) is h, subst (HasUser IsHelper) is met)
    | inr absent ↦ IsHelper-made c d (rw (absent, user_or_new) at e)
  ]

  checked_users : (c d : Contents) → check_users c ≡ some d → HasUser IsAdmin d × HasUser IsHelper d
  unfolding check_users
  checked_users c d e =
      let helper_step : Contents → Option Contents = λ x. user_or_new vshelper_query "vshelper" x in
      let admin_step : Contents → Option Contents =
        λ x. also (user_or_new admin_query "admin" x) helper_step in
      let (c1, _, e1) = also-then (user_or_new user_query "admin" c) admin_step d e in
      let (c2, first, e2) = also-then (user_or_new admin_query "admin" c1) helper_step d e1 in
      let (kept, helper) = IsHelper-there c2 d e2 in
      (kept IsAdmin (IsAdmin-there c1 c2 first), helper)

  after_version :
      (v : Option ℤ) (db d : Contents)
      → with_version v db ≡ some d
      → HasUser IsAdmin d × HasUser IsHelper d
  after_version none db d e = absurd (ground arith)
  after_version (some v) db d e =
      elim (Bool-cases (not (version_fits v) || is_unversioned v && finds any_table db)) [
        | inl dies ↦ absurd (let e' = rw dies at e in ground (arith, e'))
        | inr passes ↦
            let e' = rw passes at e in
            let versioned : Contents → Option Contents =
              λ x. also (p.define (set_version 257) x) check_users in
            let (c1, _, e1) = also-then (check_tables vxdb_tables db) versioned d e' in
            let (c2, _, e2) = also-then (p.define (set_version 257) c1) check_users d e1 in
            checked_users c2 d e2
      ]

  -- When the daemon has started on a database, it has a user who is an admin and the user vshelper.
  pub vxdb_sanity_check-users :
      (db d : Contents)
      → vxdb_sanity_check db ≡ some d
      → (any (holds IsAdmin) (d "user") ≡ true) × (any (holds IsHelper) (d "user") ≡ true)
  unfolding vxdb_sanity_check
  vxdb_sanity_check-users db d e = after_version (p.user_version db) db d e

  fits_only : (n : ℕ) → n ≢ 0 → n ≢ 256 → n ≢ 257 → version_fits (pos n) ≡ false
  unfolding version_fits
  fits_only n a b c = ground (arith, a, b, c)

  -- The daemon ends at a database with a version that is neither 0 nor 1.0 nor 1.1, whatever is in it.
  pub vxdb_sanity_check-refuses :
      (n : ℕ) (db : Contents)
      → n ≢ 0
      → n ≢ 256
      → n ≢ 257
      → p.user_version db ≡ some (pos n)
      → vxdb_sanity_check db ≡ none
  unfolding vxdb_sanity_check
  vxdb_sanity_check-refuses n db a b c is = rw (is, fits_only n a b c) refl
