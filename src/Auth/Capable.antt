-- ===== src/Auth/Capable.antt =====
-- What a user is allowed: the capabilities, the ownership of a virtual server, and the login.
use vcd.Base.{
  ℕ, true, false, String, [], ◌∷◌, some, ◌≡◌, ◌≢◌, ◌↔◌, ◌⊎◌, refl, ◌∙◌, inl, inr, arith, any,
  bit_and, Bool-cases, starts_with,
}
use vcd.Base.Int.{as_int, ℤ, pos}
use vcd.Sql.{int, text, Contents, holds, row_clean, quote_free, unordered}
use vcd.Platform.{Platform, IsHealthy, Flist, key_of}
use vcd.Lists.{vcd_caps_list}
use vcd.Vxdb.{vxdb_getxid}
use vcd.Auth.{
  auth_capable, capable_of, auth_hascapability, auth_getuid, auth_isvalid, auth_isadmin,
  auth_isowner, login_query, whirlpool_pass,
}
use vcd.Auth.Queries.{finds_sound, finds_complete, validate_username-clean, alnum_clean}

-- The database grants the capability of this name to the user of this id.
abbrev pub Grants : Contents → ℤ → String → Type 0
Grants db uid key = any (holds (("uid", int uid) ∷ ("cap", text key) ∷ [])) (db "user_caps") ≡ true

-- The entries of a flag list whose bit is asked for are granted to an existing user.
abbrev pub AllGranted : Contents → ℤ → ℕ → Flist → Type 0
AllGranted db uid caps [] = Unit
AllGranted db uid caps ((key, val) ∷ l) =
    ((bit_and caps val ≡ 0) ⊎ ((uid ≢ pos 0) × Grants db uid key)) × AllGranted db uid caps l

-- Each value of a list is found under its own key, and the key has no quote.
abbrev Keyed : Flist → Flist → Type 0
Keyed whole [] = Unit
Keyed whole ((key, val) ∷ l) =
    (key_of whole val ≡ some key) × (quote_free key ≡ true) × Keyed whole l

vcd_caps_list-Keyed : Keyed vcd_caps_list vcd_caps_list
unfolding key_of quote_free
vcd_caps_list-Keyed = assumption refl

pair_clean :
    (uid : ℤ) (key : String)
    → quote_free key ≡ true
    → row_clean (("uid", int uid) ∷ ("cap", text key) ∷ []) ≡ true
unfolding row_clean
pair_clean uid key h = ground arith

pub login_clean :
    (user digest : String)
    → quote_free user ≡ true
    → quote_free digest ≡ true
    → row_clean (("name", text user) ∷ ("password", text digest) ∷ []) ≡ true
unfolding row_clean
login_clean user digest h k = ground arith

admin_clean :
    (user : String)
    → quote_free user ≡ true
    → row_clean (("name", text user) ∷ ("admin", int (pos 1)) ∷ []) ≡ true
unfolding row_clean
admin_clean user h = ground arith

pub owner_clean :
    (uid : ℤ) (xid : ℕ) → row_clean (("uid", int uid) ∷ ("xid", int (as_int xid)) ∷ []) ≡ true
unfolding row_clean
owner_clean uid xid = refl

-- A user of this name is an admin.
abbrev pub IsAdmin : Contents → String → Type 0
IsAdmin db user = any (holds (("name", text user) ∷ ("admin", int (pos 1)) ∷ [])) (db "user") ≡ true

-- The user of this id owns the virtual server of this context id.
abbrev pub Owns : Contents → ℤ → ℕ → Type 0
Owns db uid xid =
    any (holds (("uid", int uid) ∷ ("xid", int (as_int xid)) ∷ [])) (db "xid_uid_map") ≡ true

module _ ⦃p : Platform⦄ (db : Contents) (user : String) where
  hascapability_sound :
      (key : String) (val : ℕ)
      → key_of vcd_caps_list val ≡ some key
      → quote_free key ≡ true
      → auth_hascapability db user val ≡ true
      → (auth_getuid db user ≢ pos 0) × Grants db (auth_getuid db user) key
  unfolding auth_hascapability
  hascapability_sound key val named clean e =
      let listed = p.flist_getkey_lem vcd_caps_list val ∙ named in
      (
        ground arith,
        finds_sound ("uid" ∷ []) "user_caps" _ unordered db
            (pair_clean (auth_getuid db user) key clean) (ground (arith, listed)),
      )

  hascapability_complete :
      (key : String) (val : ℕ)
      → IsHealthy p
      → key_of vcd_caps_list val ≡ some key
      → quote_free key ≡ true
      → (auth_getuid db user ≢ pos 0) × Grants db (auth_getuid db user) key
      → auth_hascapability db user val ≡ true
  unfolding auth_hascapability
  hascapability_complete key val healthy named clean (some_uid, granted) =
      let listed = p.flist_getkey_lem vcd_caps_list val ∙ named in
      ground (
        arith,
        listed,
        finds_complete ("uid" ∷ []) "user_caps"
            (("uid", int (auth_getuid db user)) ∷ ("cap", text key) ∷ []) unordered db healthy
            (pair_clean (auth_getuid db user) key clean) granted,
      )

  capable_of_sound :
      (caps : ℕ) (l : Flist)
      → Keyed vcd_caps_list l
      → capable_of db user caps l ≡ true
      → AllGranted db (auth_getuid db user) caps l
  unfolding capable_of
  capable_of_sound caps [] k e = tt
  capable_of_sound caps ((key, val) ∷ l) (named, clean, k) e = (
    ground (arith, hascapability_sound key val named clean),
    capable_of_sound caps l k (ground arith),
  )

  capable_of_complete :
      (caps : ℕ) (l : Flist)
      → IsHealthy p
      → Keyed vcd_caps_list l
      → AllGranted db (auth_getuid db user) caps l
      → capable_of db user caps l ≡ true
  unfolding capable_of
  capable_of_complete caps [] healthy k g = refl
  capable_of_complete caps ((key, val) ∷ l) healthy (named, clean, k) (inl none_asked, g) =
      ground (arith, capable_of_complete caps l healthy k g)
  capable_of_complete caps ((key, val) ∷ l) healthy (named, clean, k) (inr granted, g) = ground (
    arith,
    hascapability_complete key val healthy named clean granted,
    capable_of_complete caps l healthy k g,
  )

  -- While sqlite answers every query, auth_capable lets a user pass exactly if every capability of
  -- vcd_caps_list among those asked for is granted to the user in user_caps.
  pub auth_capable_iff :
      (caps : ℕ)
      → IsHealthy p
      → (auth_capable db user caps ≡ true) ↔ AllGranted db (auth_getuid db user) caps vcd_caps_list
  unfolding auth_capable
  auth_capable_iff caps healthy = (
    capable_of_sound caps vcd_caps_list vcd_caps_list-Keyed,
    capable_of_complete caps vcd_caps_list healthy vcd_caps_list-Keyed,
  )

  auth_isadmin_sound : auth_isadmin db user ≡ true → IsAdmin db user
  unfolding auth_isadmin
  auth_isadmin_sound e =
      finds_sound ("uid" ∷ []) "user" _ unordered db
        (admin_clean user (validate_username-clean user (ground arith))) (ground arith)

  -- If auth_isvalid accepts a password that is not marked as a digest, the user table has a row with
  -- the name of the user and the digest of the password.
  pub auth_isvalid_sound :
      (pass : String)
      → starts_with pass "WHIRLPOOLENC//" ≡ false
      → auth_isvalid db user pass ≡ true
      → any
          (holds (("name", text user) ∷ ("password", text (p.whirlpool_digest pass)) ∷ []))
          (db "user")
        ≡ true
  unfolding auth_isvalid login_query whirlpool_pass
  auth_isvalid_sound pass plain e =
      finds_sound ("uid" ∷ []) "user" _ unordered db
        (login_clean user (p.whirlpool_digest pass) (validate_username-clean user (ground arith))
          (alnum_clean _ (p.whirlpool_digest_chars pass)))
        (ground (arith, plain))

  -- A user who passes auth_isowner for a name has a user id, and is an admin by the user table or owns,
  -- by xid_uid_map, the virtual server whose context id vxdb_getxid finds for the name.
  pub auth_isowner_sound :
      (name : String)
      → auth_isowner db user name ≡ true
      → (auth_getuid db user ≢ pos 0)
        × (IsAdmin db user
            ⊎ ((vxdb_getxid db name ≢ 0) × Owns db (auth_getuid db user) (vxdb_getxid db name)))
  unfolding auth_isowner
  auth_isowner_sound name e = (
    ground arith,
    elim (Bool-cases (auth_isadmin db user)) [
      | inl admin ↦ inl (auth_isadmin_sound admin)
      | inr plain ↦ inr (
        ground (arith, plain),
        finds_sound ("uid" ∷ []) "xid_uid_map" _ unordered db
            (owner_clean (auth_getuid db user) (vxdb_getxid db name)) (ground (arith, plain)),
      )
    ],
  )
