-- ===== src/Methods/Vxdb/Names/Owners.antt =====
-- Giving a virtual server to a user.
use vcd.Base.{
  ℕ, true, not, String, List, [], ◌∷◌, some, ◌≡◌, ◌≢◌, refl, sym, ap, subst, ◌∙◌, arith, all, any,
  any-append, keep,
}
use vcd.Base.Int.{as_int, ℤ, pos}
use vcd.Platform.{Platform, IsHealthy}
use vcd.Sql.{int, Row, Contents, replace, holds, field, stmt_clean, row_clean, unordered, conflicts}
use vcd.Sql.Writes.{DoesAll, replace_rows}
use vcd.Vxdb.{vxdb_getxid}
use vcd.Vxdb.Tables.{vxdb_unique}
use vcd.Vxdb.Stable.{auth_getuid-same, vxdb_getxid-same}
use vcd.Auth.{auth_isowner, auth_getuid}
use vcd.Auth.Queries.{finds_complete}
use vcd.Auth.Capable.{owner_clean}
use vcd.Call.{State, ok, Params, str, member, external, Reply}
use vcd.Call.Fetch.{exec_or_fault-then}
use vcd.Methods.Passing.{init-then, get_str-then, require_uid-then, require_xid-then}
use vcd.Methods.Grant.{str-injective}
use vcd.Methods.Vxdb.Names.{m_vxdb_owner_add}

abbrev owner_row : ℕ → ℤ → Row
owner_row xid uid = ("xid", int (as_int xid)) ∷ ("uid", int uid) ∷ []

abbrev owner_condition : ℕ → ℤ → Row
owner_condition xid uid = ("uid", int uid) ∷ ("xid", int (as_int xid)) ∷ []

owner_row-clean :
    (xid : ℕ) (uid : ℤ) → all stmt_clean (replace "xid_uid_map" (owner_row xid uid) ∷ []) ≡ true
unfolding all stmt_clean row_clean
owner_row-clean xid uid = refl

owner_row-holds : (xid : ℕ) (uid : ℤ) → holds (owner_condition xid uid) (owner_row xid uid) ≡ true
unfolding holds field
owner_row-holds xid uid = ground arith

replaced-any :
    (w r : Row) (rows : List Row) (ks : List (List String))
    → holds w r ≡ true
    → any (holds w) (replace_rows ks r rows) ≡ true
unfolding replace_rows any
replaced-any w r rows ks h =
    any-append (holds w) (keep (λ s. not (conflicts ks r s)) rows) (r ∷ []) ∙ ground (arith, h)

module _ ⦃p : Platform⦄ where
  isowner_of_row :
      (db : Contents) (user name : String)
      → IsHealthy p
      → auth_getuid db user ≢ pos 0
      → vxdb_getxid db name ≢ 0
      → any (holds (owner_condition (vxdb_getxid db name) (auth_getuid db user))) (db "xid_uid_map")
        ≡ true
      → auth_isowner db user name ≡ true
  unfolding auth_isowner
  isowner_of_row db user name healthy some_uid some_xid there =
      let found =
        finds_complete ("uid" ∷ []) "xid_uid_map"
          (owner_condition (vxdb_getxid db name) (auth_getuid db user)) unordered db healthy
          (owner_clean (auth_getuid db user) (vxdb_getxid db name)) there in
      ground (arith, found)

  owned_after :
      (c d : Contents) (user name : String)
      → IsHealthy p
      → auth_getuid c user ≢ pos 0
      → vxdb_getxid c name ≢ 0
      → DoesAll vxdb_unique
          (replace "xid_uid_map" (owner_row (vxdb_getxid c name) (auth_getuid c user)) ∷ [])
          c
          d
      → auth_isowner d user name ≡ true
  owned_after c d user name healthy some_uid some_xid (m, does, same) =
      let whole = same ∙ does in
      let same_uid = auth_getuid-same healthy user d c (ap (λ z. z "user") whole) in
      let same_xid = vxdb_getxid-same healthy name d c (ap (λ z. z "xid_name_map") whole) in
      let condition = owner_condition (vxdb_getxid c name) (auth_getuid c user) in
      let there : any (holds condition) (d "xid_uid_map") ≡ true =
        ap (λ z. any (holds condition) (z "xid_uid_map")) whole
        ∙ replaced-any condition _ (c "xid_uid_map") (vxdb_unique "xid_uid_map")
            (owner_row-holds (vxdb_getxid c name) (auth_getuid c user)) in
      isowner_of_row d user name healthy (λ e. some_uid (sym same_uid ∙ e))
        (λ e. some_xid (sym same_xid ∙ e))
        (subst (λ u. any (holds (owner_condition (vxdb_getxid d name) u)) (d "xid_uid_map") ≡ true)
          (sym same_uid)
          (subst
            (λ x. any (holds (owner_condition x (auth_getuid c user))) (d "xid_uid_map") ≡ true)
            (sym same_xid) there))

  -- When vxdb.owner.add succeeds for a client while sqlite answers every query, the user that it names
  -- passes auth_isowner for the virtual server that it names.
  pub m_vxdb_owner_add-isowner :
      (credentials params : Params) (name user : String) (s t : State) (r : Reply)
      → IsHealthy p
      → member "name" params ≡ some (str name)
      → member "username" params ≡ some (str user)
      → m_vxdb_owner_add (external credentials params) s ≡ (ok r, t)
      → auth_isowner t.db user name ≡ true
  unfolding m_vxdb_owner_add
  m_vxdb_owner_add-isowner credentials params name user s t r healthy named is_user e =
      let (s', same, body) = init-then _ _ _ credentials params s t r e in
      let (n, has_name, body2) = get_str-then "name" params _ s' t r body in
      let (u, has_user, body3) = get_str-then "username" params _ s' t r body2 in
      let (some_uid, body4) = require_uid-then u _ s' t r body3 in
      let (some_xid, body5) = require_xid-then n _ s' t r body4 in
      let (d, went, ended) = exec_or_fault-then _ _ s' t r body5 in
      let does = p.exec_sound _ s'.db d (owner_row-clean _ _) went in
      let owned = owned_after s'.db d u n healthy some_uid some_xid does in
      subst (λ z. auth_isowner z.1.db user name ≡ true) ended
        (subst (λ x. auth_isowner d x name ≡ true) (str-injective u user (sym has_user ∙ is_user))
          (subst (λ x. auth_isowner d u x ≡ true) (str-injective n name (sym has_name ∙ named))
            owned))
