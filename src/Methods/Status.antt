-- ===== src/Methods/Status.antt =====
-- src/vcd/methods/vcd/vcd_{hostinfo,status}.c: reports on the host and on the daemon.
use vcd.Base.{◌+◌, ◌-◌, [], ◌∷◌, Option, none, some, if◌then◌else◌, ltb}
use vcd.Base.Int.{suc_int, ℤ, pos, negsuc, pos_part, neg_part}
use vcd.Sql.{Query, select, limit_one, desc}
use vcd.Sql.Answers.{Record}
use vcd.Platform.{Platform}
use vcd.Lists.VcdCap
use vcd.Validate.{max_mem_node}
use vcd.Vxdb.{vxdb_column_int}
use vcd.Call.{M, pure, looks, ◌>>=◌, str, num, Request, Reply, nil, struct, fetch_one}
use vcd.Methods.{method_init}

abbrev pub sub_ℤ : ℤ → ℤ → ℤ
sub_ℤ a b =
    let up = pos_part a + neg_part b in
    let down = pos_part b + neg_part a in
    if ltb up down then negsuc (down - up - 1) else pos (up - down)

module _ ⦃p : Platform⦄ where
  unfoldable pub m_vcd_hostinfo : Request → M Reply
  m_vcd_hostinfo request = do
    params ← method_init request VcdCap.info 0
    pure (
        struct (
          ("vbasedir", str p.vbasedir)
          ∷ ("cpus", num (pos p.processors))
          ∷ ("memnodes", num (suc_int max_mem_node))
          ∷ []))

  abbrev pub status_query : Query
  status_query =
      limit_one
        (select ("uptime" ∷ "requests" ∷ "flogins" ∷ "nomethod" ∷ []) "vcd" [] (desc "uptime"))

  abbrev status_reply : ℤ → Option Record → Reply
  status_reply now none = nil
  status_reply now (some r) = struct (
      ("uptime", num (sub_ℤ now (vxdb_column_int r 0)))
      ∷ ("requests", num (vxdb_column_int r 1))
      ∷ ("flogins", num (vxdb_column_int r 2))
      ∷ ("nomethod", num (vxdb_column_int r 3))
      ∷ [])

  unfoldable pub m_vcd_status : Request → M Reply
  m_vcd_status request = do
    params ← method_init request VcdCap.info 0
    now ← looks p.time
    row ← fetch_one status_query
    pure (status_reply now row)
