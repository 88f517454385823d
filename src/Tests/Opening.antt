-- ===== src/Tests/Opening.antt =====
-- The start of the daemon at concrete inputs.
use vcd.Base.{true, Option, none, some, ◌≡◌, refl, any, arith}
use vcd.Base.Int.{pos}
use vcd.Sql.{Contents, holds}
use vcd.Platform.{Platform}
use vcd.Opening.{vxdb_sanity_check}
use vcd.Opening.Users.{IsAdmin, IsHelper, vxdb_sanity_check-users, vxdb_sanity_check-refuses}
use vcd.Tests.Reference.{reference}
use vcd.Tests.Run.{run_call}
use vcd.Tests.Sample.{sample, no_rows}

abbrev contents_of : Option Contents → Contents
contents_of none = no_rows
contents_of (some c) = c

abbrev opened : Contents
opened = contents_of (vxdb_sanity_check ⦃p = reference⦄ sample)

vxdb_sanity_check-users_example :
    (any (holds IsAdmin) (opened "user") ≡ true) × (any (holds IsHelper) (opened "user") ≡ true)
unfolding run_call
vxdb_sanity_check-users_example = vxdb_sanity_check-users ⦃p = reference⦄ sample opened refl

-- The same platform with a database of version 2.0.
unfoldable pub newer : Platform
unfolding reference
newer = record reference { host = record reference.host { user_version = λ c. some (pos 512) } }

vxdb_sanity_check-refuses_example : vxdb_sanity_check ⦃p = newer⦄ sample ≡ none
unfolding newer
vxdb_sanity_check-refuses_example =
    vxdb_sanity_check-refuses ⦃p = newer⦄ 512 sample (λ e. absurd (omega arith))
      (λ e. absurd (omega arith)) (λ e. absurd (omega arith)) refl
