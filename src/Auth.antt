-- ===== src/Auth.antt =====
-- src/vcd/auth.c: who a user is, and what it may do. Every function only reads the database.
pub mod Queries
pub mod Capable
pub mod Fresh
use vcd.Base.{
  zero, suc, bit_and, starts_with, ℕ, Bool, true, false, not, ◌&&◌, ◌||◌, String, [], ◌∷◌, Option,
  none, some, if◌then◌else◌, ◌==◌,
}
use vcd.Base.Int.{as_int, ℤ, pos, suc_int, eqb_ℤ}
use vcd.Sql.{int, text, Contents, Query, select, limit_one, unordered, desc}
use vcd.Platform.{Platform, Flist}
use vcd.Lists.{vcd_caps_list}
use vcd.Validate.{validate_username, str_isempty}
use vcd.Vxdb.{first_row, vxdb_column_int, vxdb_getxid}

-- The text after "WHIRLPOOLENC//".
abbrev drop_prefix : ℕ → String → String
drop_prefix zero s = s
drop_prefix (suc n) String.[] = String.[]
drop_prefix (suc n) (String.◌∷◌ c s) = drop_prefix n s

module _ ⦃p : Platform⦄ where
  -- The digest that is stored or compared: one that is marked as such is taken as it comes.
  unfoldable pub whirlpool_pass : String → String
  whirlpool_pass pass =
      if starts_with pass "WHIRLPOOLENC//" then drop_prefix 14 pass else p.whirlpool_digest pass

  abbrev is_some_row {ℓ} : {A : Type ℓ} → Option A → Bool
  is_some_row none = false
  is_some_row (some r) = true

  -- `rc == VXDB_OK && vxdb_step(dbr) == VXDB_ROW` as the result
  unfoldable pub finds : Query → Contents → Bool
  finds q db = is_some_row (first_row (p.prepare q db))

  unfoldable pub login_query : String → String → Query
  login_query user pass =
      select ("uid" ∷ []) "user"
        (("name", text user) ∷ ("password", text (whirlpool_pass pass)) ∷ []) unordered

  unfoldable pub auth_isvalid : Contents → String → String → Bool
  auth_isvalid db user pass =
      validate_username user && not (str_isempty pass) && finds (login_query user pass) db

  unfoldable pub auth_isadmin : Contents → String → Bool
  auth_isadmin db user =
      validate_username user
      && finds
          (select ("uid" ∷ []) "user" (("name", text user) ∷ ("admin", int (pos 1)) ∷ []) unordered)
          db

  unfoldable pub auth_getuid : Contents → String → ℤ
  auth_getuid db user =
      if validate_username user
      then elim (first_row
          (p.prepare (select ("uid" ∷ []) "user" (("name", text user) ∷ []) unordered) db)) [
            | none ↦ pos 0
            | some r ↦ vxdb_column_int r 0
          ]
      else pos 0

  unfoldable pub auth_hascapability : Contents → String → ℕ → Bool
  auth_hascapability db user cap =
      let uid = auth_getuid db user in
      not (eqb_ℤ uid (pos 0)) && elim (p.flist_getkey vcd_caps_list cap) [
        | none ↦ false
        | some buf ↦
            finds
              (select ("uid" ∷ []) "user_caps" (("uid", int uid) ∷ ("cap", text buf) ∷ [])
                unordered)
              db
      ]

  -- The loop of auth_capable over vcd_caps_list.
  unfoldable pub capable_of : Contents → String → ℕ → Flist → Bool
  capable_of db user caps [] = true
  capable_of db user caps ((key, val) ∷ l) =
      (bit_and caps val == 0 || auth_hascapability db user val) && capable_of db user caps l

  unfoldable pub auth_capable : Contents → String → ℕ → Bool
  auth_capable db user caps = capable_of db user caps vcd_caps_list

  unfoldable pub auth_isowner : Contents → String → String → Bool
  auth_isowner db user name =
      let uid = auth_getuid db user in
      let xid = vxdb_getxid db name in
      not (eqb_ℤ uid (pos 0))
      && (auth_isadmin db user
          || not (xid == 0)
            && finds
                (select ("uid" ∷ []) "xid_uid_map"
                  (("uid", int uid) ∷ ("xid", int (as_int xid)) ∷ []) unordered)
                db)

  unfoldable pub auth_getnextuid : Contents → ℤ
  auth_getnextuid db =
      suc_int
        (elim (first_row (p.prepare (limit_one (select ("uid" ∷ []) "user" [] (desc "uid"))) db)) [
          | none ↦ pos 0
          | some r ↦ vxdb_column_int r 0
        ])
