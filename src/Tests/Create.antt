-- ===== src/Tests/Create.antt =====
-- New virtual servers at concrete inputs.
use mathlib.Core.List.{mem-cons_self}
use vcd.Base.{ℕ, ◌<◌, ◌≢◌, true, false, String, [], ◌∷◌, none, ◌≡◌, refl, All, arith}
use vcd.Base.Int.{pos}
use vcd.Sql.{int, text, Row, Contents, put_rows, field, stmt_clean}
use vcd.Platform.{Platform}
use vcd.Kernel.{Conf}
use vcd.Vxdb.{vxdb_getname}
use vcd.Vxdb.Rows.{rows_of}
use vcd.Call.{member, State, Params, str, flag, external, ok, nil}
use vcd.Methods.Gate.{counted}
use vcd.Methods.Create.{m_vx_create}
use vcd.Methods.Create.Allowed.{MayBuild, m_vx_create-MayBuild}
use vcd.Sql.Answers.{count_rows}
use vcd.Methods.Create.Ids.{find_free_xid}
use vcd.Methods.Create.Ids.Fresh.{find_free_xid-fresh, find_free_xid-refused}
use vcd.Methods.Create.Entries.{create_vxdb_entries, renewed_tables}
use vcd.Methods.Create.Entries.Rows.{Has, create_vxdb_entries-Has}
use vcd.Tests.Reference.{reference, reference-IsHealthy}
use vcd.Tests.Run.{run_call}
use vcd.Tests.Sample.{initial}

-- The same platform with a directory at every path.
unfoldable pub building : Platform
unfolding reference
building = record reference { host = record reference.host { isdir = λ h path. true } }

find_free_xid-fresh_example :
    (x : ℕ) × (find_free_xid ⦃p = reference⦄ 0 initial ≡ (ok x, initial))
    × (rows_of x (initial.db "xid_name_map") ≡ [])
    × (1 < x)
    × (x < 65536)
unfolding field count_rows
find_free_xid-fresh_example =
    find_free_xid-fresh ⦃p = reference⦄ initial reference-IsHealthy
      ((10, refl, omega arith, omega arith), ((11, refl, omega arith, omega arith), tt))
      (omega arith)

abbrev last_row : Row
last_row = ("xid", int (pos 65534)) ∷ ("name", text "last") ∷ []

abbrev full : State
full = record initial { db = put_rows "xid_name_map" (last_row ∷ []) initial.db }

find_free_xid-refused_example :
    (find_free_xid ⦃p = reference⦄ 0 full ≡ (ok 65535, full))
    × ((db : Contents) → vxdb_getname ⦃p = reference⦄ db 65535 ≡ none)
unfolding field count_rows
find_free_xid-refused_example =
    find_free_xid-refused ⦃p = reference⦄ full last_row reference-IsHealthy
      ((65534, refl, omega arith, omega arith), tt) (omega arith) mem-cons_self refl

abbrev admin : Params
admin = ("username", str "admin") ∷ ("password", str "secret") ∷ []

abbrev new_server : Params
new_server =
    ("name", str "new")
    ∷ ("template", str "base")
    ∷ ("force", flag false)
    ∷ ("copy", flag false)
    ∷ ("vdir", str "/vservers/new")
    ∷ []

-- The admin may create virtual servers.
abbrev creating : State
creating = record initial {
  db = put_rows "user_caps" ((("uid", int (pos 1)) ∷ ("cap", text "CREATE") ∷ []) ∷ []) initial.db;
}

abbrev after_create : State
after_create = (m_vx_create ⦃p = building⦄ (external admin new_server) creating).1

m_vx_create-MayBuild_example :
    MayBuild ⦃p = building⦄ (counted ⦃p = building⦄ creating).db creating.calls "admin" "new" false
unfolding run_call building member
m_vx_create-MayBuild_example =
    m_vx_create-MayBuild ⦃p = building⦄ admin new_server "new" "admin" false creating after_create
      nil refl refl refl refl

abbrev plain : Conf
plain = record {
  description = none;
  init = none;
  halt = none;
  reboot = none;
  timeout = none;
  mounts = [];
  bcaps = none;
  ccaps = none;
  flags = none;
}

abbrev after_entries : State
after_entries =
    (create_vxdb_entries ⦃p = reference⦄ 10 "web" "/vservers/web" "/templates/base" initial).1

create_vxdb_entries-Has_example :
    All (Has ⦃p = reference⦄ 10 after_entries.db "web" "/vservers/web" plain) renewed_tables
    × ((x : ℕ) → x ≢ 10 → (u : String) → rows_of x (after_entries.db u) ≡ rows_of x (initial.db u))
unfolding run_call stmt_clean
create_vxdb_entries-Has_example =
    create_vxdb_entries-Has ⦃p = reference⦄ 10 "web" "/vservers/web" "/templates/base" plain initial
      after_entries refl refl refl
