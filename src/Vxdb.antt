-- ===== src/Vxdb.antt =====
-- src/vcd/vxdb.c: stepping through a result, its columns, and the lookups that every method uses.
-- The steps of a statement stand for the codes that sqlite3_step returns one after the other.
pub mod Tables
pub mod Lookup
pub mod Rows
pub mod Inserts
pub mod Names
pub mod Stable
use vcd.Base.{
  ℕ, zero, suc, ◌+◌, ◌-◌, ◌^◌, ◌%◌, Bool, true, false, not, String, List, [], ◌∷◌, Option, none,
  some, if◌then◌else◌,
}
use vcd.Base.Int.{as_int, to_int, ℤ, pos, negsuc}
use vcd.Sql.{Value, int, text, Row, Contents, Query, select, unordered}
use vcd.Sql.Answers.{Record, Steps, row, busy, done, failed}
use vcd.Platform.{Platform}
use vcd.Validate.{validate_name, validate_xid, validate_group, str_isempty}

-- vxdb_step tries again while sqlite is busy.
unfoldable pub vxdb_step : Steps → Steps
vxdb_step (busy s) = vxdb_step s
vxdb_step (row r s) = row r s
vxdb_step done = done
vxdb_step failed = failed

-- vxdb_foreach_step: the rows that its body sees, and whether the last code is VXDB_DONE.
unfoldable pub vxdb_foreach_step : Steps → List Record × Bool
vxdb_foreach_step (busy s) = vxdb_foreach_step s
vxdb_foreach_step (row r s) = let (rs, ok) = vxdb_foreach_step s in (r ∷ rs, ok)
vxdb_foreach_step done = ([], true)
vxdb_foreach_step failed = ([], false)

abbrev pub head_row : Steps → Option Record
head_row (row r s) = some r
head_row _ = none

-- `rc == VXDB_OK && vxdb_step(dbr) == VXDB_ROW`
unfoldable pub first_row : Option Steps → Option Record
first_row none = none
first_row (some s) = head_row (vxdb_step s)

unfoldable pub column : Record → ℕ → Option Value
column [] i = none
column (v ∷ r) zero = v
column (v ∷ r) (suc i) = column r i

module _ ⦃p : Platform⦄ where
  abbrev or_zero : Option ℤ → ℤ
  or_zero none = pos 0
  or_zero (some z) = z

  abbrev or_zero_u : Option ℕ → ℕ
  or_zero_u none = 0
  or_zero_u (some n) = n

  -- The columns that the daemon reads are never NULL, where sqlite gives no text.
  unfoldable pub vxdb_column_text : Record → ℕ → String
  vxdb_column_text r i = elim (column r i) [
    | none ↦ ""
    | some (int z) ↦ p.decimal z
    | some (text s) ↦ s
  ]

  -- An integer is printed by sqlite and read back by sscanf, which keeps the low 32 bits.
  unfoldable pub vxdb_column_int : Record → ℕ → ℤ
  vxdb_column_int r i = elim (column r i) [
    | none ↦ pos 0
    | some (int z) ↦ to_int z
    | some (text s) ↦ or_zero (p.scan_int s)
  ]

  abbrev wrap : ℕ → ℤ → ℕ
  wrap w (pos n) = n % 2 ^ w
  wrap w (negsuc n) = (2 ^ w - (n + 1) % 2 ^ w) % 2 ^ w

  unfoldable pub vxdb_column_uint32 : Record → ℕ → ℕ
  vxdb_column_uint32 r i = elim (column r i) [
    | none ↦ 0
    | some (int z) ↦ wrap 32 z
    | some (text s) ↦ or_zero_u (p.scan_u32 s)
  ]

  unfoldable pub vxdb_column_uint64 : Record → ℕ → ℕ
  vxdb_column_uint64 r i = elim (column r i) [
    | none ↦ 0
    | some (int z) ↦ wrap 64 z
    | some (text s) ↦ or_zero_u (p.scan_u64 s)
  ]

  unfoldable pub vxdb_getxid : Contents → String → ℕ
  vxdb_getxid db name =
      if validate_name name
      then elim (first_row (
          p.prepare (select ("xid" ∷ []) "xid_name_map" (("name", text name) ∷ []) unordered) db)) [
            | none ↦ 0
            | some r ↦ vxdb_column_uint32 r 0
          ]
      else 0

  unfoldable pub vxdb_getname : Contents → ℕ → Option String
  vxdb_getname db xid =
      if validate_xid xid
      then elim (first_row (
          p.prepare (select ("name" ∷ []) "xid_name_map" (("xid", int (as_int xid)) ∷ []) unordered)
            db)) [ none ↦ none | some r ↦ some (vxdb_column_text r 0) ]
      else none

  abbrev isempty_or_null : Option String → Bool
  isempty_or_null none = true
  isempty_or_null (some s) = str_isempty s

  -- The query of vxdb_getvdir, made where the name has a context id.
  unfoldable pub stored_vdir : Contents → ℕ → Option String
  stored_vdir db zero = none
  stored_vdir db (suc n) =
      elim (first_row (
        p.prepare (select ("vdir" ∷ []) "vdir" (("xid", int (as_int (suc n))) ∷ []) unordered)
          db)) [ none ↦ none | some r ↦ some (vxdb_column_text r 0) ]

  unfoldable pub vxdb_getvdir : Contents → String → Option String
  vxdb_getvdir db name =
      let vdir = stored_vdir db (vxdb_getxid db name) in
      if isempty_or_null vdir then p.str_path_concat p.vbasedir name else vdir

  unfoldable pub vxdb_getgid : Contents → String → ℤ
  vxdb_getgid db group =
      if validate_group group
      then elim (first_row
          (p.prepare (select ("gid" ∷ []) "groups" (("name", text group) ∷ []) unordered) db)) [
            | none ↦ pos 0
            | some r ↦ vxdb_column_int r 0
          ]
      else pos 0
