-- ===== src/Methods/User/Accounts.antt =====
-- Making and removing users.
use vcd.Base.{
  Bool, true, false, not, String, [], ◌∷◌, some, ◌≡◌, sym, subst, ◌∙◌, arith, any, any-append,
  starts_with, str_equal_refl, all,
}
use vcd.Base.Int.{ℤ}
use vcd.Platform.{Platform, IsHealthy}
use vcd.Sql.{
  int, text, Row, Contents, insert, holds, field, stmt_clean, row_clean, quote_free, unordered,
}
use vcd.Sql.Writes.{DoesAll}
use vcd.Vxdb.Tables.{vxdb_unique}
use vcd.Validate.{validate_username, validate_password, str_isempty}
use vcd.Auth.{auth_isvalid, auth_getnextuid, login_query, whirlpool_pass}
use vcd.Auth.Queries.{finds_complete, validate_username-clean, alnum_clean}
use vcd.Auth.Capable.{login_clean}
use vcd.Call.{State, ok, Reply}
use vcd.Call.Fetch.{exec_or_fault-then, fault_if-then}
use vcd.Methods.{meinval}
use vcd.Methods.User.{create_user, flag_value}

module _ ⦃p : Platform⦄ where
  abbrev new_user : ℤ → String → String → Bool → Row
  new_user uid user digest admin =
      ("uid", int uid)
      ∷ ("name", text user)
      ∷ ("password", text digest)
      ∷ ("admin", flag_value admin)
      ∷ []

  new_user-clean :
      (uid : ℤ) (user digest : String) (admin : Bool)
      → quote_free user ≡ true
      → quote_free digest ≡ true
      → all stmt_clean (insert "user" (new_user uid user digest admin) ∷ []) ≡ true
  unfolding all stmt_clean row_clean
  new_user-clean uid user digest admin h k = ground arith

  new_user-holds :
      (uid : ℤ) (user digest : String) (admin : Bool)
      → holds
          (("name", text user) ∷ ("password", text digest) ∷ [])
          (new_user uid user digest admin)
        ≡ true
  unfolding holds field
  new_user-holds uid user digest admin = ground (arith, str_equal_refl user, str_equal_refl digest)

  -- The row that was inserted is in the table.
  inserted :
      (w r : Row) (c d : Contents)
      → DoesAll vxdb_unique (insert "user" r ∷ []) c d
      → holds w r ≡ true
      → any (holds w) (d "user") ≡ true
  unfolding any
  inserted w r c d (m, (fresh, added), same) h =
      subst (λ z. any (holds w) (z "user") ≡ true) (sym (same ∙ added))
        (any-append (holds w) (c "user") (r ∷ []) ∙ ground (arith, h))

  pub whirlpool_pass-plain :
      (pass : String)
      → starts_with pass "WHIRLPOOLENC//" ≡ false
      → (quote_free (whirlpool_pass pass) ≡ true)
  unfolding whirlpool_pass
  whirlpool_pass-plain pass plain =
      ground (arith, plain, alnum_clean _ (p.whirlpool_digest_chars pass))

  pub isvalid_of_row :
      (user pass : String) (db : Contents)
      → IsHealthy p
      → validate_username user ≡ true
      → str_isempty pass ≡ false
      → quote_free (whirlpool_pass pass) ≡ true
      → any
          (holds (("name", text user) ∷ ("password", text (whirlpool_pass pass)) ∷ []))
          (db "user")
        ≡ true
      → auth_isvalid db user pass ≡ true
  unfolding auth_isvalid login_query
  isvalid_of_row user pass db healthy valid given clean there =
      let w = ("name", text user) ∷ ("password", text (whirlpool_pass pass)) ∷ [] in
      let found =
        finds_complete ("uid" ∷ []) "user" w unordered db healthy
          (login_clean user (whirlpool_pass pass) (validate_username-clean user valid) clean)
          there in
      ground (arith, valid, given, found)

  -- A user that was made can log in with the password that was given, unless it is marked as a
  -- digest, while sqlite answers every query.
  pub create_user-login :
      (user pass : String) (admin : Bool) (s t : State) (r : Reply)
      → IsHealthy p
      → validate_username user ≡ true
      → starts_with pass "WHIRLPOOLENC//" ≡ false
      → create_user user (some pass) admin s ≡ (ok r, t)
      → auth_isvalid t.db user pass ≡ true
  unfolding create_user validate_password
  create_user-login user pass admin s t r healthy valid plain e =
      let clean = whirlpool_pass-plain pass plain in
      let (accepted, rest) =
        fault_if-then (not (validate_password (some pass))) meinval _ s t r e in
      let uid = auth_getnextuid s.db in
      let row = new_user uid user (whirlpool_pass pass) admin in
      let (d, went, last) = exec_or_fault-then (insert "user" row ∷ []) _ s t r rest in
      let user_clean = validate_username-clean user valid in
      let does =
        p.exec_sound _ s.db d (new_user-clean uid user (whirlpool_pass pass) admin user_clean clean)
          went in
      let there =
        inserted _ row s.db d does (new_user-holds uid user (whirlpool_pass pass) admin) in
      subst (λ z. auth_isvalid z.1.db user pass ≡ true) last
        (isvalid_of_row user pass d healthy valid (ground arith) clean there)
