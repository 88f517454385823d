-- ===== src/Tests/Gate.antt =====
-- Who may call what, at concrete requests.
use vcd.Base.{String, some, subst, arith, ◌+◌, true, ◌≡◌, ◌≢◌, ◌↔◌, ◌⊎◌, inr, refl, [], ◌∷◌, any}
use vcd.Base.Int.{pos}
use vcd.Sql.{text, holds}
use vcd.Call.{ok, str, member, external, nil, fault, code}
use vcd.Lists.{vcd_caps_list}
use vcd.Lists.VcdCap
use vcd.Auth.{auth_isvalid, auth_getuid, auth_capable}
use vcd.Vxdb.{vxdb_getxid}
use vcd.Auth.Capable.{
  AllGranted, IsAdmin, Owns, auth_capable_iff, auth_isvalid_sound, auth_isowner_sound,
}
use vcd.Methods.{m_owner, m_lock, method_init}
use vcd.Methods.Registry.{Method, call}
use vcd.Methods.Registry.Demands.{required_caps, required_flags}
use vcd.Methods.Gate.{Admits, call-Admits, counted}
use vcd.Methods.Frame.{SameButVcd, call-refused}
use vcd.Methods.Open.{helper-open}
use vcd.Methods.Grant.{init_complete, str-injective}
use vcd.Methods.Isolation.{call-isolated}
use vcd.Methods.Isolation.Statements.{params_clean}
use vcd.Vxdb.Rows.{rows_of}
use vcd.Tests.Reference.{reference, reference-IsHealthy}
use vcd.Tests.Sample.{sample, initial, bob, web_addr}
use vcd.Tests.Run.{run_call}

-- A user who is not granted CREATE is refused.
refused :
    (call ⦃p = reference⦄ Method.vxdb_vx_bcaps_add (external bob web_addr) initial).0
    ≡ fault (code 101)
unfolding run_call
refused = refl

-- What the gate finds out about the request of the tests.
call-Admits_used : Admits ⦃p = reference⦄ VcdCap.net (m_owner + m_lock) bob web_addr initial
unfolding run_call
call-Admits_used = record {
  user = "bob";
  pass = "secret";
  has_user = refl;
  has_pass = refl;
  isvalid = refl;
  capable = refl;
  owner = inr ("web", refl, refl);
  locks = inr ("web", refl, refl, refl);
}

web_is_10 :
    (name : String)
    → member "name" web_addr ≡ some (str name)
    → 11 ≢ vxdb_getxid ⦃p = reference⦄ (counted ⦃p = reference⦄ initial).db name
unfolding run_call
web_is_10 name e =
    subst (λ n. 11 ≢ vxdb_getxid ⦃p = reference⦄ (counted ⦃p = reference⦄ initial).db n)
      (str-injective "web" name e) (λ h. omega arith)

call-Admits_example :
    Admits ⦃p = reference⦄
      (required_caps Method.vxdb_nx_addr_set)
      (required_flags Method.vxdb_nx_addr_set)
      bob
      web_addr
      initial
unfolding run_call
call-Admits_example =
    call-Admits ⦃p = reference⦄ Method.vxdb_nx_addr_set bob web_addr initial
      (call ⦃p = reference⦄ Method.vxdb_nx_addr_set (external bob web_addr) initial).1 nil refl

auth_capable_iff_example :
    (auth_capable ⦃p = reference⦄ sample "bob" VcdCap.info ≡ true)
    ↔ AllGranted sample (auth_getuid ⦃p = reference⦄ sample "bob") VcdCap.info vcd_caps_list
auth_capable_iff_example =
    auth_capable_iff ⦃p = reference⦄ sample "bob" VcdCap.info reference-IsHealthy

auth_isvalid_sound_example :
    any (holds (("name", text "bob") ∷ ("password", text "digest") ∷ [])) (sample "user") ≡ true
unfolding run_call
auth_isvalid_sound_example = auth_isvalid_sound ⦃p = reference⦄ sample "bob" "secret" refl refl

auth_isowner_sound_example :
    (auth_getuid ⦃p = reference⦄ sample "bob" ≢ pos 0)
    × (IsAdmin sample "bob"
        ⊎ ((vxdb_getxid ⦃p = reference⦄ sample "web" ≢ 0)
            × Owns sample
                (auth_getuid ⦃p = reference⦄ sample "bob")
                (vxdb_getxid ⦃p = reference⦄ sample "web")))
unfolding run_call
auth_isowner_sound_example = auth_isowner_sound ⦃p = reference⦄ sample "bob" "web" refl

call-refused_example :
    ((call ⦃p = reference⦄ Method.vxdb_vx_bcaps_add (external bob web_addr) initial).0
      ≡ fault (code 101))
    × SameButVcd sample
        (call ⦃p = reference⦄ Method.vxdb_vx_bcaps_add (external bob web_addr) initial).1
unfolding run_call required_caps
call-refused_example =
    call-refused ⦃p = reference⦄ Method.vxdb_vx_bcaps_add bob web_addr initial (code 101) refl

init_complete_example :
    (method_init ⦃p = reference⦄ (external bob web_addr) VcdCap.net (m_owner + m_lock) initial).0
    ≡ ok web_addr
unfolding run_call
init_complete_example =
    init_complete ⦃p = reference⦄ bob web_addr VcdCap.net (m_owner + m_lock) initial
      call-Admits_used (inr ("web", refl, refl))

call-isolated_example :
    rows_of 11 (
      (call ⦃p = reference⦄ Method.vxdb_nx_addr_set (external bob web_addr) initial).1.db "nx_addr")
    ≡ rows_of 11 (sample "nx_addr")
unfolding run_call params_clean required_flags
call-isolated_example =
    call-isolated ⦃p = reference⦄ Method.vxdb_nx_addr_set bob web_addr initial 11 refl refl
      web_is_10 "nx_addr" refl

helper-open_example :
    ((method_init ⦃p = reference⦄
        (external bob web_addr)
        (required_caps Method.helper_restart)
        (required_flags Method.helper_restart)
        initial).0
      ≡ ok web_addr)
    ↔ (auth_isvalid ⦃p = reference⦄ (counted ⦃p = reference⦄ initial).db "bob" "secret" ≡ true)
unfolding required_caps member
helper-open_example =
    helper-open ⦃p = reference⦄ Method.helper_restart bob web_addr "bob" "secret" initial refl refl
      refl
