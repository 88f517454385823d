-- ===== src/Vxpasswd/Login.antt =====
-- A password that vxpasswd has set.
use vcd.Base.{
  true, false, not, ◌||◌, String, List, [], ◌∷◌, Option, some, ◌≡◌, refl, sym, ap, subst, ◌∙◌,
  arith, any, all, ltb, len, starts_with, str_equal, str_equal→eq, str_equal_refl, Bool-cases,
  Option-cases, inl, inr,
}
use vcd.Platform.{Platform, IsHealthy}
use vcd.Sql.{Value, text, Row, Contents, field, holds, assign, stmt_clean, row_clean}
use vcd.Sql.Writes.{update_rows}
use vcd.Validate.{validate_username, str_isempty}
use vcd.Auth.{auth_isvalid, whirlpool_pass}
use vcd.Auth.Queries.{validate_username-clean, alnum_clean}
use vcd.Methods.User.Accounts.{isvalid_of_row, whirlpool_pass-plain}
use vcd.Vshelper.{exit_success}
use vcd.Vxpasswd.{vxpasswd, password_of, new_password, store_password}

field-assign_same : (c : String) (v : Value) (r : Row) → field c (assign c v r) ≡ some v
unfolding field assign
field-assign_same c v [] = ground (arith, str_equal_refl c)
field-assign_same c v ((d, u) ∷ r) = elim (Bool-cases (str_equal c d)) [
  | inl here ↦ ground (arith, here, str_equal_refl c)
  | inr there ↦ ground (arith, there, field-assign_same c v r)
]

field-assign_other :
    (k c : String) (v : Value) (r : Row)
    → str_equal k c ≡ false
    → field k (assign c v r) ≡ field k r
unfolding field assign
field-assign_other k c v [] h = ground (arith, h)
field-assign_other k c v ((d, u) ∷ r) h = elim (Bool-cases (str_equal c d)) [
  | inl same ↦
      subst (λ z. field k (assign c v ((z, u) ∷ r)) ≡ field k ((z, u) ∷ r)) (str_equal→eq c d same)
        (ground (arith, h, str_equal_refl c))
  | inr differ ↦ ground (arith, differ, field-assign_other k c v r h)
]

abbrev login_row : String → String → Row
login_row user digest = ("name", text user) ∷ ("password", text digest) ∷ []

-- The row of the user has the new password.
assigned :
    (user digest : String) (r : Row)
    → holds (("name", text user) ∷ []) r ≡ true
    → holds (login_row user digest) (assign "password" (text digest) r) ≡ true
unfolding holds
assigned user digest r met =
    rw
      (
        field-assign_other "name" "password" (text digest) r refl,
        field-assign_same "password" (text digest) r,
      )
      (ground (arith, met, str_equal_refl digest))

updated :
    (user digest : String) (rows : List Row)
    → any (holds (("name", text user) ∷ [])) rows ≡ true
    → any
        (holds (login_row user digest))
        (update_rows "password" (text digest) (("name", text user) ∷ []) rows)
      ≡ true
unfolding update_rows any
updated user digest [] there = absurd (ground arith)
updated user digest (r ∷ rows) there = elim (Bool-cases (holds (("name", text user) ∷ []) r)) [
  | inl mine ↦ ground (arith, mine, assigned user digest r mine)
  | inr other ↦
      let rest = updated user digest rows (ground (arith, other)) in ground (arith, other, rest)
]

not_empty : (s : String) → ltb (len s) 8 ≡ false → str_isempty s ≡ false
not_empty s h = elim (Bool-cases (str_isempty s)) [
  | inl empty ↦ absurd (
      let h' = subst (λ x. ltb (len x) 8 ≡ false) (str_equal→eq s "" empty) h in ground (arith, h'))
  | inr given ↦ given
]

module _ ⦃p : Platform⦄ where
  password-clean :
      (user pass : String)
      → validate_username user ≡ true
      → all stmt_clean (new_password user pass ∷ []) ≡ true
  unfolding all stmt_clean row_clean
  password-clean user pass valid = ground (
    arith,
    validate_username-clean user valid,
    alnum_clean (p.whirlpool_digest pass) (p.whirlpool_digest_chars pass),
  )

  digest_of :
      (pass : String)
      → starts_with pass "WHIRLPOOLENC//" ≡ false
      → whirlpool_pass pass ≡ p.whirlpool_digest pass
  unfolding whirlpool_pass
  digest_of pass plain = ground (arith, plain)

  -- What store_password does when it succeeds.
  stored :
      (db d : Contents) (user pass : String)
      → store_password db user (some pass) ≡ (exit_success, d)
      → (p.exec (new_password user pass ∷ []) db ≡ some d)
        × (any (holds (("name", text user) ∷ [])) (db "user") ≡ true)
        × (str_isempty pass ≡ false)
  stored db d user pass e = elim (Bool-cases (ltb (len pass) 8)) [
    | inl short ↦ absurd (let e' = rw short at e in ground (arith, e'))
    | inr long ↦ elim (Option-cases (p.exec (new_password user pass ∷ []) db)) [
      | inl failed ↦ absurd (let e' = rw (long, failed) at e in ground (arith, e'))
      | inr (c, went) ↦ elim (Bool-cases (any (holds (("name", text user) ∷ [])) (db "user"))) [
        | inl there ↦
            (went ∙ ap (λ z. some z.1) (rw (long, went, there) at e), there, not_empty pass long)
        | inr absent ↦ absurd (let e' = rw (long, went, absent) at e in ground (arith, e'))
      ]
    ]
  ]

  -- After vxpasswd has ended with success the user can log in with the password, unless that is marked
  -- as a digest, while sqlite answers every query.
  pub vxpasswd-login :
      (vxdbfile user pass first again : String) (given : Option String) (db d : Contents)
      → IsHealthy p
      → validate_username user ≡ true
      → starts_with pass "WHIRLPOOLENC//" ≡ false
      → password_of given first again ≡ some pass
      → vxpasswd vxdbfile user given first again db ≡ (exit_success, d)
      → auth_isvalid d user pass ≡ true
  unfolding vxpasswd
  vxpasswd-login vxdbfile user pass first again given db d healthy valid plain is e =
      elim (Bool-cases (str_isempty vxdbfile || (str_isempty user || not (p.str_isalnum user)))) [
        | inl wrong ↦ absurd (let e' = rw wrong at e in ground (arith, e'))
        | inr right ↦
            let (went, there, given_one) = stored db d user pass (rw (right, is) at e) in
            let (m, (_, writes), same) =
              p.exec_sound _ db d (password-clean user pass valid) went in
            let found = updated user (p.whirlpool_digest pass) (db "user") there in
            let in_d =
              subst (λ c. any (holds (login_row user (p.whirlpool_digest pass))) (c "user") ≡ true)
                (sym (same ∙ writes)) found in
            isvalid_of_row user pass d healthy valid given_one (whirlpool_pass-plain pass plain) (
              subst (λ x. any (holds (login_row user x)) (d "user") ≡ true)
                (sym (digest_of pass plain)) in_d)
      ]
