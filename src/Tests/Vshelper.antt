-- ===== src/Tests/Vshelper.antt =====
-- The programs vshelper and vxpasswd at concrete inputs.
use vcd.Base.{true, some, ◌≡◌, refl}
use vcd.Call.{ok}
use vcd.Methods.{meauth}
use vcd.Methods.Frame.{SameButVcd}
use vcd.Methods.Registry.{Method}
use vcd.Methods.Registry.Demands.{required_caps, required_flags}
use vcd.Vshelper.{Account, Action, Status, do_vshelper}
use vcd.Vshelper.Refused.{method_of, do_vshelper-refused}
use vcd.Sql.{Contents}
use vcd.Auth.{auth_isvalid}
use vcd.Vxpasswd.{vxpasswd}
use vcd.Vxpasswd.Login.{vxpasswd-login}
use vcd.Tests.Reference.{reference, reference-IsHealthy}
use vcd.Tests.Run.{run_call}
use vcd.Tests.Sample.{initial, sample}

-- The database has no such user.
abbrev stranger : Account
stranger = record { user = "eve"; pass = "secret" }

do_vshelper-refused_example :
    ((do_vshelper ⦃p = reference⦄ Action.startup stranger 10 initial).0 ≡ ok Status.exit_failure)
    × SameButVcd initial.db (do_vshelper ⦃p = reference⦄ Action.startup stranger 10 initial).1
unfolding run_call method_of required_caps required_flags
do_vshelper-refused_example =
    do_vshelper-refused ⦃p = reference⦄ Action.startup Method.helper_startup stranger 10 initial
      meauth refl refl

abbrev renewed : Contents
renewed = (vxpasswd ⦃p = reference⦄ "/vxdb" "bob" (some "new secret") "" "" sample).1

vxpasswd-login_example : auth_isvalid ⦃p = reference⦄ renewed "bob" "new secret" ≡ true
unfolding run_call
vxpasswd-login_example =
    vxpasswd-login ⦃p = reference⦄ "/vxdb" "bob" "new secret" "" "" (some "new secret") sample
      renewed reference-IsHealthy refl refl refl refl
