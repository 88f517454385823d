-- ===== src/Methods/Helper/Network.antt =====
-- src/vcd/methods/helper/helper_netup.c: the addresses of a network context.
use vcd.Base.{
  ℕ, Bool, not, String, List, [], ◌∷◌, Option, none, some, if◌then◌else◌, str_cat, bit_or,
}
use vcd.Base.Int.{pos, negsuc, eqb_ℤ}
use vcd.Sql.{Query, select, unordered}
use vcd.Sql.Answers.{Record, Steps}
use vcd.Platform.{Platform}
use vcd.Kernel.{NxAddr, nx_addr_add}
use vcd.Lists.VcdCap
use vcd.Vxdb.{vxdb_column_text, vxdb_foreach_step, vxdb_getname}
use vcd.Call.{
  Fault, M, pure, raise, reads, looks, ◌>>=◌, ◌>>◌, fault_if, Request, get_int, Reply, nil, code,
}
use vcd.Call.Sys.{sys, must, is_alive}
use vcd.Call.Loops.{for_rows, loop_ended}
use vcd.Methods.{menovps, mestopped, meconf, mesys, method_init}
use vcd.Methods.Common.{xid_is, is_none}
use vcd.Methods.Vxdb.Names.{to_xid}

module _ ⦃p : Platform⦄ where
  -- `snprintf(buf, 31, "%s/%s", ip, netm)`
  abbrev pub interface_text : Record → String
  interface_text r =
      p.first_bytes 30 (str_cat (vxdb_column_text r 0) (str_cat "/" (vxdb_column_text r 1)))

  abbrev pub interface_addr : Record → NxAddr
  interface_addr r = record { type = p.constant "NXA_TYPE_IPV4"; text = interface_text r }

  abbrev pub add_interface : ℕ → Record → M (Unit {0})
  add_interface xid r = do
    fault_if (eqb_ℤ (p.addr_from_str (interface_text r)) (negsuc 0)) meconf
    must (nx_addr_add xid (interface_addr r))

  abbrev pub interfaces_query : ℕ → Query
  interfaces_query xid = select ("addr" ∷ "netmask" ∷ []) "nx_addr" (xid_is xid) unordered

  unfoldable pub network_interfaces : ℕ → M (Unit {0})
  network_interfaces xid = for_rows (interfaces_query xid) (add_interface xid)

  abbrev pub broadcast_addr : Record → NxAddr
  broadcast_addr r = record {
    type = bit_or (p.constant "NXA_TYPE_IPV4") (p.constant "NXA_MOD_BCAST");
    text = vxdb_column_text r 0;
  }

  -- A broadcast address, and the fault that it sets.
  unfoldable pub add_broadcast : ℕ → Record → M (Option Fault)
  add_broadcast xid r =
      if not (eqb_ℤ (p.addr_from_str (vxdb_column_text r 0)) (pos 1))
      then pure (some meconf)
      else (do
        done ← sys (nx_addr_add xid (broadcast_addr r))
        pure (if done then none else some mesys))

  abbrev later : Option Fault → Option Fault → Option Fault
  later f none = f
  later f (some g) = some g

  -- This loop goes on after a fault, and the last one stays.
  unfoldable pub add_broadcasts : ℕ → Option Fault → List Record → M (Option Fault)
  unfolding add_broadcast
  add_broadcasts xid f [] = pure f
  add_broadcasts xid f (r ∷ rs) = do g ← add_broadcast xid r; add_broadcasts xid (later f g) rs

  abbrev pub broadcast_ended : Bool → Option Fault → M (Unit {0})
  broadcast_ended ok none = loop_ended ok
  broadcast_ended ok (some f) = raise f

  abbrev pub broadcasts_over : ℕ → Option Steps → M (Unit {0})
  broadcasts_over xid none = raise (code 400)
  broadcasts_over xid (some steps) = do
    let (rs, ok) = vxdb_foreach_step steps
    f ← add_broadcasts xid none rs
    broadcast_ended ok f

  abbrev pub broadcast_query : ℕ → Query
  broadcast_query xid = select ("broadcast" ∷ []) "nx_broadcast" (xid_is xid) unordered

  unfoldable pub network_broadcast : ℕ → M (Unit {0})
  unfolding add_broadcasts vxdb_foreach_step
  network_broadcast xid s = broadcasts_over xid (p.prepare (broadcast_query xid) s.db) s

  unfoldable pub m_helper_netup : Request → M Reply
  unfolding network_interfaces network_broadcast
  m_helper_netup request = do
    params ← method_init request VcdCap.helper 0
    id ← get_int "xid" params
    let xid = to_xid id
    name ← reads (λ db. vxdb_getname db xid)
    fault_if (is_none name) menovps
    info ← looks (λ h. p.nx_info h xid)
    fault_if (not (is_alive info)) mestopped
    network_interfaces xid
    network_broadcast xid
    pure nil
