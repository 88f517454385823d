-- ===== src/Methods/Group/Running.antt =====
-- src/vcd/methods/vg/vg_vx_{start,stop,restart,reboot}.c: the same for each virtual server of a group.
use vcd.Base.{String, List, [], ◌∷◌}
use vcd.Base.Int.{ℤ}
use vcd.Platform.{Platform}
use vcd.Kernel.{Info, alive, gone, failing}
use vcd.Lists.VcdCap
use vcd.Call.{
  Result, ok, fault, Fault, M, pure, raise, looks, ◌>>=◌, ◌>>◌, str, Request, internal, get_str,
  Reply, nil,
}
use vcd.Methods.{mesys, method_init}
use vcd.Methods.Vxdb.Names.{to_xid}
use vcd.Methods.Group.{vg_list_init}
use vcd.Methods.Running.{m_vx_start, m_vx_stop, m_vx_restart, m_vx_reboot}

module _ ⦃p : Platform⦄ where
  abbrev pub guest : String → Request
  guest name = internal (("name", str name) ∷ [])

  abbrev if_alive : Info → M Reply → M Reply
  if_alive alive m = m
  if_alive _ m = pure nil

  -- The method for each running member. Once a fault is set, the calls for the members that follow
  -- return at once, and the fault is the reply.
  unfoldable pub each_running : (Request → M Reply) → List (ℤ × String) → M Reply
  unfolding looks
  each_running method [] = pure nil
  each_running method ((xid, name) ∷ vxs) = do
    info ← looks (λ h. p.vx_info h (to_xid xid))
    if_alive info (method (guest name))
    each_running method vxs

  -- After a fault the loop of vg.vx.start still asks for each member that is left.
  unfoldable pub start_skipped : Fault → List (ℤ × String) → M Reply
  unfolding looks
  start_skipped f [] = raise f
  start_skipped f ((xid, name) ∷ vxs) = do
    info ← looks (λ h. p.vx_info h (to_xid xid))
    elim info [ failing ↦ raise mesys | gone ↦ start_skipped f vxs | alive ↦ start_skipped f vxs ]

  abbrev start_rest : M Reply → List (ℤ × String) → Result Reply → M Reply
  start_rest rest vxs (ok r) = rest
  start_rest rest vxs (fault f) = start_skipped f vxs

  unfoldable pub start_stopped : List (ℤ × String) → M Reply
  unfolding start_skipped
  start_stopped [] = pure nil
  start_stopped ((xid, name) ∷ vxs) = do
    info ← looks (λ h. p.vx_info h (to_xid xid))
    elim info [
      | failing ↦ raise mesys
      | alive ↦ start_stopped vxs
      | gone ↦
          λ s. let (r, s') = m_vx_start (guest name) s in start_rest (start_stopped vxs) vxs r s'
    ]

  unfoldable pub m_vg_vx_start : Request → M Reply
  unfolding start_stopped
  m_vg_vx_start request = do
    params ← method_init request VcdCap.init 0
    group ← get_str "group" params
    vxs ← vg_list_init group
    start_stopped vxs

  unfoldable pub m_vg_vx_stop : Request → M Reply
  m_vg_vx_stop request = do
    params ← method_init request VcdCap.init 0
    group ← get_str "group" params
    vxs ← vg_list_init group
    each_running m_vx_stop vxs

  unfoldable pub m_vg_vx_restart : Request → M Reply
  m_vg_vx_restart request = do
    params ← method_init request VcdCap.init 0
    group ← get_str "group" params
    vxs ← vg_list_init group
    each_running m_vx_restart vxs

  unfoldable pub m_vg_vx_reboot : Request → M Reply
  m_vg_vx_reboot request = do
    params ← method_init request VcdCap.init 0
    group ← get_str "group" params
    vxs ← vg_list_init group
    each_running m_vx_reboot vxs
