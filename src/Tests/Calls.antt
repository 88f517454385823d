-- ===== src/Tests/Calls.antt =====
-- Words of flag lists, owners, removals and groups at concrete inputs.
use vcd.Base.{true, some, [], ◌∷◌, ◌≡◌, refl, All}
use vcd.Base.Int.{pos}
use vcd.Sql.{int, text, put_rows}
use vcd.Vxdb.{vxdb_getxid, vxdb_getname}
use vcd.Methods.Gate.{counted}
use vcd.Methods.Group.{m_vg_remove}
use vcd.Methods.Group.Removal.{Left, m_vg_remove-Ungrouped}
use vcd.Methods.Server.Renaming.{m_vx_rename-names}
use vcd.Methods.Server.{m_vx_rename, m_vx_remove, removed_tables}
use vcd.Methods.Server.Removal.{Emptied, m_vx_remove-Emptied}
use vcd.Lists.{vcd_caps_list, bcaps_list, ccaps_list, cflags_list, rlimit_list, uname_list}
use vcd.Validate.{
  validate_vcd_cap, validate_bcap, validate_ccap, validate_cflag, validate_rlimit, validate_uname,
}
use vcd.Validate.Flags.{listed, validate_flags_iff}
use vcd.Auth.{auth_isowner}
use vcd.Call.{State, Params, external, nil, str}
use vcd.Methods.Vxdb.Names.{m_vxdb_owner_add}
use vcd.Methods.Vxdb.Names.Owners.{m_vxdb_owner_add-isowner}
use vcd.Tests.Reference.{reference, reference-IsHealthy}
use vcd.Tests.Sample.{sample, initial, bob}
use vcd.Tests.Run.{run_call}

validate_flags_iff_example :
    (validate_vcd_cap ⦃p = reference⦄ "NET" ≡ listed vcd_caps_list "NET")
    × (validate_bcap ⦃p = reference⦄ "NET" ≡ listed (bcaps_list ⦃p = reference⦄) "NET")
    × (validate_ccap ⦃p = reference⦄ "NET" ≡ listed (ccaps_list ⦃p = reference⦄) "NET")
    × (validate_cflag ⦃p = reference⦄ "NET" ≡ listed (cflags_list ⦃p = reference⦄) "NET")
    × (validate_rlimit ⦃p = reference⦄ "NET" ≡ listed (rlimit_list ⦃p = reference⦄) "NET")
    × (validate_uname ⦃p = reference⦄ "NET" ≡ listed (uname_list ⦃p = reference⦄) "NET")
validate_flags_iff_example = validate_flags_iff ⦃p = reference⦄ "NET"

abbrev mail_to_bob : Params
mail_to_bob = ("name", str "mail") ∷ ("username", str "bob") ∷ []

m_vxdb_owner_add-isowner_example :
    auth_isowner ⦃p = reference⦄
      (m_vxdb_owner_add ⦃p = reference⦄ (external bob mail_to_bob) initial).1.db
      "bob"
      "mail"
    ≡ true
unfolding run_call
m_vxdb_owner_add-isowner_example =
    m_vxdb_owner_add-isowner ⦃p = reference⦄ bob mail_to_bob "mail" "bob" initial
      (m_vxdb_owner_add ⦃p = reference⦄ (external bob mail_to_bob) initial).1 nil
      reference-IsHealthy refl refl refl

-- A client who may create virtual servers.
abbrev creator : State
creator = record initial {
  db = put_rows "user_caps" ((("uid", int (pos 2)) ∷ ("cap", text "CREATE") ∷ []) ∷ []) sample;
}

abbrev web : Params
web = ("name", str "web") ∷ []

m_vx_remove-Emptied_example :
    All
      (Emptied
        (m_vx_remove ⦃p = reference⦄ (external bob web) creator).1.db
        (vxdb_getxid ⦃p = reference⦄ (counted ⦃p = reference⦄ creator).db "web"))
      removed_tables
    × ((m_vx_remove ⦃p = reference⦄ (external bob web) creator).1.db "vx_cpuset"
        ≡ (counted ⦃p = reference⦄ creator).db "vx_cpuset")
unfolding run_call
m_vx_remove-Emptied_example =
    m_vx_remove-Emptied ⦃p = reference⦄ bob web "web" creator
      (m_vx_remove ⦃p = reference⦄ (external bob web) creator).1 nil refl refl

-- Two virtual servers in a group.
abbrev grouped : State
grouped = record initial {
  db =
      put_rows "xid_gid_map"
        ((("xid", int (pos 10)) ∷ ("gid", int (pos 3)) ∷ [])
          ∷ (("xid", int (pos 11)) ∷ ("gid", int (pos 3)) ∷ [])
          ∷ [])
        (put_rows "groups" ((("gid", int (pos 3)) ∷ ("name", text "pool") ∷ []) ∷ []) sample);
}

abbrev pool : Params
pool = ("group", str "pool") ∷ ("name", str "") ∷ []

m_vg_remove-Ungrouped_example :
    Left ⦃p = reference⦄
      (counted ⦃p = reference⦄ grouped).db
      (m_vg_remove ⦃p = reference⦄ (external bob pool) grouped).1.db
      "pool"
      ""
unfolding run_call
m_vg_remove-Ungrouped_example =
    m_vg_remove-Ungrouped ⦃p = reference⦄ bob pool "pool" "" grouped
      (m_vg_remove ⦃p = reference⦄ (external bob pool) grouped).1 nil refl refl refl

abbrev web_to_www : Params
web_to_www = ("name", str "web") ∷ ("newname", str "www") ∷ []

m_vx_rename-names_example :
    (vxdb_getxid ⦃p = reference⦄
        (m_vx_rename ⦃p = reference⦄ (external bob web_to_www) creator).1.db
        "www"
      ≡ 10)
    × (vxdb_getname ⦃p = reference⦄
          (m_vx_rename ⦃p = reference⦄ (external bob web_to_www) creator).1.db
          10
        ≡ some "www")
    × (vxdb_getxid ⦃p = reference⦄
          (m_vx_rename ⦃p = reference⦄ (external bob web_to_www) creator).1.db
          "web"
        ≡ 0)
unfolding run_call
m_vx_rename-names_example =
    m_vx_rename-names ⦃p = reference⦄ bob web_to_www 10 "web" "www" creator
      (m_vx_rename ⦃p = reference⦄ (external bob web_to_www) creator).1 nil reference-IsHealthy refl
      refl refl refl refl refl
