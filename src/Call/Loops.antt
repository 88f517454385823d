-- ===== src/Call/Loops.antt =====
-- `vxdb_foreach_step` with a body that can set a fault and leave the loop.
use vcd.Base.{Bool, true, false, List, [], ◌∷◌, Option, none, some}
use vcd.Sql.{Query}
use vcd.Sql.Answers.{Record, Steps}
use vcd.Platform.{Platform}
use vcd.Vxdb.{vxdb_foreach_step}
use vcd.Call.{M, pure, raise, ◌>>◌, code}

-- The body for one row after the other, up to the first fault.
unfoldable pub each : (Record → M (Unit {0})) → List Record → M (Unit {0})
each body [] = pure tt
each body (r ∷ rs) = body r >> each body rs

module _ ⦃p : Platform⦄ where
  abbrev pub loop_ended : Bool → M (Unit {0})
  loop_ended true = pure tt
  loop_ended false = raise (code 400)

  abbrev pub loop_over : (Record → M (Unit {0})) → Option Steps → M (Unit {0})
  loop_over body none = raise (code 400)
  loop_over body (some steps) =
      let (rs, ok) = vxdb_foreach_step steps in each body rs >> loop_ended ok

  -- Prepare and step, with a vxdb fault at the end unless the loop was left or ended well.
  unfoldable pub for_rows : Query → (Record → M (Unit {0})) → M (Unit {0})
  unfolding each vxdb_foreach_step
  for_rows q body s = loop_over body (p.prepare q s.db) s
