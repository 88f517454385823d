-- ===== src/Tests/Sample.antt =====
-- A small database for the tests: an admin, a user with two capabilities, and two virtual servers
-- of which the user owns one.
use vcd.Base.{ℕ, String, [], ◌∷◌, none}
use vcd.Base.Int.{pos}
use vcd.Sql.{int, text, Row, Contents, put_rows}
use vcd.Call.{State, Params, str}

abbrev pub no_rows : Contents
no_rows t = []

abbrev user_row : ℕ → String → ℕ → Row
user_row uid name admin =
    ("uid", int (pos uid))
    ∷ ("name", text name)
    ∷ ("password", text "digest")
    ∷ ("admin", int (pos admin))
    ∷ []

abbrev with_users : Contents
with_users = put_rows "user" (user_row 2 "bob" 0 ∷ user_row 1 "admin" 1 ∷ []) no_rows

abbrev with_caps : Contents
with_caps =
    put_rows "user_caps"
      ((("uid", int (pos 2)) ∷ ("cap", text "NET") ∷ [])
        ∷ (("uid", int (pos 2)) ∷ ("cap", text "AUTH") ∷ [])
        ∷ [])
      with_users

abbrev with_names : Contents
with_names =
    put_rows "xid_name_map"
      ((("xid", int (pos 10)) ∷ ("name", text "web") ∷ [])
        ∷ (("xid", int (pos 11)) ∷ ("name", text "mail") ∷ [])
        ∷ [])
      with_caps

abbrev with_owners : Contents
with_owners =
    put_rows "xid_uid_map" ((("xid", int (pos 10)) ∷ ("uid", int (pos 2)) ∷ []) ∷ []) with_names

abbrev addr_row : ℕ → String → Row
addr_row xid addr =
    ("xid", int (pos xid)) ∷ ("addr", text addr) ∷ ("netmask", text "255.255.255.0") ∷ []

abbrev pub sample : Contents
sample = put_rows "nx_addr" (addr_row 10 "10.0.0.1" ∷ addr_row 11 "10.0.0.2" ∷ []) with_owners

abbrev pub initial : State
initial = record { db = sample; lockfd = none; calls = [] }

abbrev pub bob : Params
bob = ("username", str "bob") ∷ ("password", str "secret") ∷ []

abbrev pub web_addr : Params
web_addr = ("name", str "web") ∷ ("addr", str "10.0.0.9") ∷ ("netmask", str "") ∷ []
