-- ===== src/Methods/Open.antt =====
-- The gate of the methods helper.*: VCD_CAP_HELPER is no entry of vcd_caps_list.
use vcd.Base.{true, String, some, ◌≡◌, ◌↔◌, refl, sym, subst, arith, inl, ◌∙◌}
use vcd.Platform.{Platform}
use vcd.Lists.VcdCap
use vcd.Auth.{auth_isvalid, auth_capable, capable_of}
use vcd.Call.{State, Params, str, member, external, ok}
use vcd.Methods.{method_init}
use vcd.Methods.Gate.{counted, init-Admits}
use vcd.Methods.Grant.{init_complete, str-injective}
use vcd.Methods.Registry.{Method}
use vcd.Methods.Registry.Demands.{required_caps, required_flags}

helper-unflagged : (m : Method) → required_caps m ≡ VcdCap.helper → required_flags m ≡ 0
unfolding required_caps required_flags
helper-unflagged Method.helper_netup asked = refl
helper-unflagged Method.helper_restart asked = refl
helper-unflagged Method.helper_shutdown asked = refl
helper-unflagged Method.helper_startup asked = refl
helper-unflagged m asked = absurd (ground arith)

module _ ⦃p : Platform⦄ where
  capable-helper : (user : String) (s : State) → auth_capable s.db user VcdCap.helper ≡ true
  unfolding auth_capable capable_of
  capable-helper user s = refl

  unflagged_iff :
      (credentials params : Params) (user pass : String) (s : State)
      → member "username" credentials ≡ some (str user)
      → member "password" credentials ≡ some (str pass)
      → ((method_init (external credentials params) VcdCap.helper 0 s).0 ≡ ok params)
        ↔ (auth_isvalid (counted s).db user pass ≡ true)
  unflagged_iff credentials params user pass s is_user is_pass = (
    λ passed.
        let t = (method_init (external credentials params) VcdCap.helper 0 s).1 in
        let whole : method_init (external credentials params) VcdCap.helper 0 s ≡ (ok params, t) =
          ground (arith, passed) in
        let a = (init-Admits credentials params VcdCap.helper 0 s t params whole).0 in
        subst (λ u. auth_isvalid (counted s).db u pass ≡ true)
          (str-injective a.user user (sym a.has_user ∙ is_user))
          (subst (λ w. auth_isvalid (counted s).db a.user w ≡ true)
            (str-injective a.pass pass (sym a.has_pass ∙ is_pass)) a.isvalid),
    λ valid.
        init_complete credentials params VcdCap.helper 0 s
          (record {
            user = user;
            pass = pass;
            has_user = is_user;
            has_pass = is_pass;
            isvalid = valid;
            capable = capable-helper user (counted s);
            owner = inl refl;
            locks = inl refl;
          })
          (inl refl),
  )

  -- A client's request for a method that asks for VCD_CAP_HELPER passes method_init exactly if its user
  -- is valid: whatever capabilities the database grants to the user, the method is open to it.
  pub helper-open :
      (m : Method) (credentials params : Params) (user pass : String) (s : State)
      → required_caps m ≡ VcdCap.helper
      → member "username" credentials ≡ some (str user)
      → member "password" credentials ≡ some (str pass)
      → ((method_init (external credentials params) (required_caps m) (required_flags m) s).0
          ≡ ok params)
        ↔ (auth_isvalid (counted s).db user pass ≡ true)
  helper-open m credentials params user pass s asked is_user is_pass =
      rw (asked, helper-unflagged m asked)
        (unflagged_iff credentials params user pass s is_user is_pass)
