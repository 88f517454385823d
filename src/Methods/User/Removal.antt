-- ===== src/Methods/User/Removal.antt =====
-- What vcd.user.remove leaves behind.
use vcd.Base.{
  true, false, String, List, [], ◌∷◌, some, ◌≡◌, ◌≢◌, refl, sym, ap, subst, ◌∙◌, arith, any, keep,
  all,
}
use vcd.Base.Int.{ℤ, pos}
use vcd.Platform.{Platform}
use vcd.Sql.{int, Row, Contents, delete, holds, stmt_clean, row_clean}
use vcd.Sql.Writes.{DoesAll, delete_rows}
use vcd.Vxdb.Tables.{vxdb_unique}
use vcd.Auth.{auth_getuid}
use vcd.Call.{State, ok, Params, external, Reply, member, str}
use vcd.Call.Fetch.{exec_or_fault-then}
use vcd.Methods.Gate.{counted}
use vcd.Methods.Passing.{init-then, get_str-then, require_uid-then}
use vcd.Methods.User.{m_vcd_user_remove}

abbrev of_uid : ℤ → Row
of_uid uid = ("uid", int uid) ∷ []

-- No row of the table has this user id.
abbrev pub Without : Contents → String → ℤ → Type 0
Without db t uid = any (holds (of_uid uid)) (db t) ≡ false

pub delete-without : (w : Row) (rows : List Row) → any (holds w) (delete_rows w rows) ≡ false
unfolding delete_rows any keep
delete-without w [] = refl
delete-without w (r ∷ rows) = ground (arith, delete-without w rows)

removal_clean :
    (uid : ℤ)
    → all stmt_clean (
        delete "xid_uid_map" (of_uid uid)
        ∷ delete "user_caps" (of_uid uid)
        ∷ delete "user" (of_uid uid)
        ∷ [])
      ≡ true
unfolding all stmt_clean row_clean
removal_clean uid = refl

-- The three deletions of m_vcd_user_remove one after the other.
removed :
    (uid : ℤ) (c d : Contents)
    → DoesAll vxdb_unique
        (delete "xid_uid_map" (of_uid uid)
          ∷ delete "user_caps" (of_uid uid)
          ∷ delete "user" (of_uid uid)
          ∷ [])
        c
        d
    → Without d "xid_uid_map" uid × Without d "user_caps" uid × Without d "user" uid
removed uid c d (m, first, (n, second, (o, third, same))) =
    let whole = same ∙ third in
    (
      subst (λ z. Without z "xid_uid_map" uid) (sym whole)
          (subst (λ z. Without z "xid_uid_map" uid) (sym second)
            (subst (λ z. Without z "xid_uid_map" uid) (sym first)
              (delete-without (of_uid uid) (c "xid_uid_map")))),
      subst (λ z. Without z "user_caps" uid) (sym whole)
          (subst (λ z. Without z "user_caps" uid) (sym second)
            (delete-without (of_uid uid) (m "user_caps"))),
      subst (λ z. Without z "user" uid) (sym whole) (delete-without (of_uid uid) (n "user")),
    )

module _ ⦃p : Platform⦄ where
  -- When vcd.user.remove succeeds for a client, the user that it names had a user id, and no row of
  -- the users, of their capabilities and of the owners has that id any more.
  pub m_vcd_user_remove-Without :
      (credentials params : Params) (user : String) (s t : State) (r : Reply)
      → member "username" params ≡ some (str user)
      → m_vcd_user_remove (external credentials params) s ≡ (ok r, t)
      → (auth_getuid (counted s).db user ≢ pos 0)
        × Without t.db "xid_uid_map" (auth_getuid (counted s).db user)
        × Without t.db "user_caps" (auth_getuid (counted s).db user)
        × Without t.db "user" (auth_getuid (counted s).db user)
  unfolding m_vcd_user_remove
  m_vcd_user_remove-Without credentials params user s t r named e =
      let (s', same, body) = init-then _ _ _ credentials params s t r e in
      let (v, taken, rest) = get_str-then "username" params _ s' t r body in
      let (some_uid, last) = require_uid-then v _ s' t r rest in
      let uid = auth_getuid s'.db v in
      let (d, went, ended) = exec_or_fault-then _ _ s' t r last in
      let gone = removed uid s'.db d (p.exec_sound _ s'.db d (removal_clean uid) went) in
      let is_user : v ≡ user = ground (arith, taken, named) in
      let is_uid : uid ≡ auth_getuid (counted s).db user =
        ap (λ u. auth_getuid s'.db u) is_user ∙ ap (λ c. auth_getuid c user) same in
      let left = ap (λ z. z.1.db) ended in
      subst
        (λ u.
          (u ≢ pos 0)
          × Without t.db "xid_uid_map" u
          × Without t.db "user_caps" u
          × Without t.db "user" u)
        is_uid
        (
          some_uid,
          subst (λ c. Without c "xid_uid_map" uid) left gone.0,
          subst (λ c. Without c "user_caps" uid) left gone.1,
          subst (λ c. Without c "user" uid) left gone.2,
        )
