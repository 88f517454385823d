-- ===== src/Methods/Create/Ids.antt =====
-- src/vcd/methods/vx/vx_create.c: a context id for a new virtual server.
pub mod Fresh
use vcd.Base.{
  ℕ, zero, suc, ◌-◌, Bool, true, false, not, ◌||◌, String, List, [], ◌∷◌, Option, none, some,
  if◌then◌else◌, ltb, ◌==◌,
}
use vcd.Base.Int.{suc_int, ℤ, pos, ltb_ℤ}
use vcd.Sql.{Contents, Query, count_max}
use vcd.Sql.Answers.{Record, Steps}
use vcd.Platform.{Platform}
use vcd.Vxdb.{vxdb_foreach_step, vxdb_column_int, vxdb_getname}
use vcd.Call.{M, pure, raise, reads, ◌>>=◌, ◌>>◌, fault_if, code}
use vcd.Methods.{mevxdb}
use vcd.Methods.Vxdb.Names.{to_xid}

module _ ⦃p : Platform⦄ where
  -- `for (i = 2; i < 65535; i++)`, from the number that is left to go. `none` if no id is free.
  unfoldable pub scan_free : Contents → ℕ → Option ℕ
  scan_free db zero = none
  scan_free db (suc left) = elim (vxdb_getname db (65534 - left)) [
    | none ↦ some (65534 - left)
    | some name ↦ scan_free db left
  ]

  abbrev or_old : ℕ → Option ℕ → ℕ
  or_old xid none = xid
  or_old xid (some i) = i

  -- The body of the loop: the new value of `xid`, and whether vxdb_getname was called.
  unfoldable pub choose_xid : Contents → ℕ → Record → ℕ × Bool
  unfolding scan_free
  choose_xid db xid r =
      let cnt = vxdb_column_int r 0 in
      let max = vxdb_column_int r 1 in
      if ltb_ℤ cnt (pos 1)
      then (2, false)
      else if ltb_ℤ max (pos 65535)
      then (to_xid (suc_int max), false)
      else if ltb_ℤ cnt (pos 65535)
      then (or_old xid (scan_free db 65533), true)
      else (xid, false)

  unfoldable pub choose_all : Contents → ℕ → Bool → List Record → ℕ × Bool
  unfolding choose_xid
  choose_all db xid scanned [] = (xid, scanned)
  choose_all db xid scanned (r ∷ rs) =
      let (x, b) = choose_xid db xid r in choose_all db x (scanned || b) rs

  -- vxdb_getname prepares and finalizes its own statement in the same variable `dbr`, so the next
  -- step of the loop is one of a finalized statement.
  abbrev chosen : Contents → Option Steps → ℕ × Bool
  chosen db none = (0, false)
  chosen db (some steps) =
      let (rs, over) = vxdb_foreach_step steps in
      let (x, scanned) = choose_all db 0 false rs in (x, if scanned then p.finalized_done else over)

  abbrev pub ids_query : Query
  ids_query = count_max "xid" "xid_name_map"

  abbrev found_xid : ℕ × Bool → M ℕ
  found_xid (xid, over) = do fault_if (not over) mevxdb; fault_if (xid == 0) mevxdb; pure xid

  -- The id of a virtual server that is rebuilt stays.
  unfoldable pub find_free_xid : ℕ → M ℕ
  unfolding choose_all vxdb_foreach_step
  find_free_xid xid =
      if not (xid == 0)
      then pure xid
      else (do choice ← reads (λ db. chosen db (p.prepare ids_query db)); found_xid choice)
