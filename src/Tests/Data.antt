-- ===== src/Tests/Data.antt =====
-- The lookups, the users and the checks at concrete inputs.
use mathlib.Core.List.{mem-cons_self}
use vcd.Base.{
  all, ◌+◌, ◌*◌, ◌^◌, ◌≤◌, ◌<◌, true, false, List, [], ◌∷◌, some, ◌≡◌, ◌≢◌, ◌↔◌, refl, arith,
  all_chars, len,
}
use vcd.Base.Int.{◌<ℤ◌, pos}
use vcd.Sql.{Row, field, query_clean, int, text, Query, select, unordered}
use vcd.Sql.Answers.{Record, answer}
use vcd.Vxdb.{vxdb_getxid, vxdb_getname}
use vcd.Vxdb.Names.{names_roundtrip}
use vcd.Validate.{validate_name}
use vcd.Validate.Bounds.{is_name_char, validate_name_iff}
use vcd.Auth.Fresh.{auth_getnextuid-fresh}
use vcd.Auth.{auth_getnextuid, auth_isvalid, auth_getuid}
use vcd.Call.{State, ok, nil, str, external, fetch}
use vcd.Call.Fetch.{fetch_sound, fetch_complete}
use vcd.Methods.Gate.{counted}
use vcd.Methods.User.{create_user, m_vcd_user_remove}
use vcd.Methods.User.Accounts.{create_user-login}
use vcd.Methods.User.Removal.{Without, m_vcd_user_remove-Without}
use vcd.Methods.Vxdb.Limits.{bytestopages, pagestobytes}
use vcd.Methods.Vxdb.Limits.Pages.{pagestobytes-bytestopages, bytestopages-wraps}
use vcd.Tests.Reference.{reference, reference-IsHealthy}
use vcd.Tests.Sample.{sample, initial, bob}
use vcd.Tests.Run.{run_call}

names_roundtrip_example :
    (vxdb_getxid ⦃p = reference⦄ sample "web" ≡ 10)
    × (vxdb_getname ⦃p = reference⦄ sample 10 ≡ some "web")
unfolding run_call
names_roundtrip_example =
    names_roundtrip ⦃p = reference⦄ sample 10 "web" reference-IsHealthy refl refl refl refl

abbrev addresses : Query
addresses = select ("addr" ∷ []) "nx_addr" (("xid", int (pos 10)) ∷ []) unordered

abbrev address : List Record
address = (some (text "10.0.0.1") ∷ []) ∷ []

fetch_sound_example : (address ≡ answer reference.arrange addresses sample) × (initial ≡ initial)
unfolding run_call query_clean
fetch_sound_example = fetch_sound ⦃p = reference⦄ addresses initial initial address refl refl

fetch_complete_example :
    fetch ⦃p = reference⦄ addresses initial
    ≡ (ok (answer reference.arrange addresses sample), initial)
unfolding run_call query_clean
fetch_complete_example = fetch_complete ⦃p = reference⦄ addresses initial reference-IsHealthy refl

validate_name_iff_example :
    (validate_name "web-1" ≡ true)
    ↔ ((3 ≤ len "web-1") × (len "web-1" ≤ 32) × (all_chars is_name_char "web-1" ≡ true))
validate_name_iff_example = validate_name_iff "web-1"

create_user-login_example :
    auth_isvalid ⦃p = reference⦄
      (create_user ⦃p = reference⦄ "carol" (some "long enough") false initial).1.db
      "carol"
      "long enough"
    ≡ true
unfolding run_call
create_user-login_example =
    create_user-login ⦃p = reference⦄ "carol" "long enough" false initial
      (create_user ⦃p = reference⦄ "carol" (some "long enough") false initial).1 nil
      reference-IsHealthy refl refl refl

abbrev removal : State
unfolding run_call
removal =
    (m_vcd_user_remove ⦃p = reference⦄ (external bob (("username", str "bob") ∷ [])) initial).1

m_vcd_user_remove-Without_example :
    (auth_getuid ⦃p = reference⦄ (counted ⦃p = reference⦄ initial).db "bob" ≢ pos 0)
    × Without removal.db "xid_uid_map" (pos 2)
    × Without removal.db "user_caps" (pos 2)
    × Without removal.db "user" (pos 2)
unfolding run_call
m_vcd_user_remove-Without_example =
    m_vcd_user_remove-Without ⦃p = reference⦄ bob (("username", str "bob") ∷ []) "bob" initial
      removal nil refl refl

pagestobytes-bytestopages_example :
    (pagestobytes ⦃p = reference⦄ (bytestopages ⦃p = reference⦄ 1001) ≤ 1001)
    × (1001 < pagestobytes ⦃p = reference⦄ (bytestopages ⦃p = reference⦄ 1001) + 4)
unfolding run_call
pagestobytes-bytestopages_example =
    pagestobytes-bytestopages ⦃p = reference⦄ 4 1001 refl (omega arith) (omega arith)

bytestopages-wraps_example :
    bytestopages ⦃p = reference⦄ (8 + 1 * 2 ^ 54) ≡ bytestopages ⦃p = reference⦄ 8
bytestopages-wraps_example = bytestopages-wraps ⦃p = reference⦄ 8 1

abbrev bob_row : Row
bob_row =
    ("uid", int (pos 2))
    ∷ ("name", text "bob")
    ∷ ("password", text "digest")
    ∷ ("admin", int (pos 0))
    ∷ []

auth_getnextuid-fresh_example : pos 2 <ℤ auth_getnextuid ⦃p = reference⦄ sample
unfolding run_call field all
auth_getnextuid-fresh_example =
    auth_getnextuid-fresh ⦃p = reference⦄ sample bob_row (pos 2) reference-IsHealthy refl
      mem-cons_self refl
