-- ===== src/Methods/Group/Removal.antt =====
-- What vg.remove leaves behind.
use vcd.Base.{
  ℕ, Bool, true, false, not, String, List, [], ◌∷◌, some, ◌≡◌, ◌≢◌, refl, sym, ap, subst, ◌∙◌,
  arith, any, all, if◌then◌else◌, Bool-cases, inl, inr,
}
use vcd.Base.Int.{as_int, ℤ, pos, eqb_ℤ, eqb_ℤ_iff}
use vcd.Platform.{Platform}
use vcd.Sql.{int, Row, Stmt, Contents, delete, holds, stmt_clean, row_clean}
use vcd.Sql.Writes.{DoesAll}
use vcd.Vxdb.Tables.{vxdb_unique}
use vcd.Vxdb.{vxdb_getgid, vxdb_getxid}
use vcd.Validate.{str_isempty, validate_name}
use vcd.Call.{
  State, ok, M, ◌>>=◌, Params, external, Reply, member, str, exec_or_fault, pure, nil, fault_if,
}
use vcd.Call.Fetch.{exec_or_fault-then, fault_if-then}
use vcd.Methods.{meinval}
use vcd.Methods.Common.{require_xid}
use vcd.Methods.Gate.{counted}
use vcd.Methods.Grant.{str-injective}
use vcd.Methods.Passing.{init-then, get_str-then, require_xid-then}
use vcd.Methods.Group.{m_vg_remove, require_gid}
use vcd.Methods.User.Removal.{delete-without}

abbrev of_gid : ℤ → Row
of_gid gid = ("gid", int gid) ∷ []

abbrev member_row : ℕ → ℤ → Row
member_row xid gid = ("xid", int (as_int xid)) ∷ ("gid", int gid) ∷ []

abbrev dissolution : ℤ → List Stmt
dissolution gid = delete "xid_gid_map" (of_gid gid) ∷ delete "groups" (of_gid gid) ∷ []

-- No row of the table meets the condition.
abbrev pub NoneHolds : Contents → String → Row → Type 0
NoneHolds db t w = any (holds w) (db t) ≡ false

-- The contents `d` after vg.remove for a request without a name, or with the name of `xid`, where the
-- contents before were `c`.
abbrev pub Ungrouped : Bool → Contents → Contents → ℤ → ℕ → Type 0
Ungrouped true c d gid xid =
    NoneHolds d "xid_gid_map" (of_gid gid) × NoneHolds d "groups" (of_gid gid)
Ungrouped false c d gid xid =
    (xid ≢ 0) × NoneHolds d "xid_gid_map" (member_row xid gid) × (d "groups" ≡ c "groups")

dissolution-clean : (gid : ℤ) → all stmt_clean (dissolution gid) ≡ true
unfolding all stmt_clean row_clean
dissolution-clean gid = refl

parting-clean :
    (xid : ℕ) (gid : ℤ) → all stmt_clean (delete "xid_gid_map" (member_row xid gid) ∷ []) ≡ true
unfolding all stmt_clean row_clean
parting-clean xid gid = refl

dissolved :
    (gid : ℤ) (xid : ℕ) (c d : Contents)
    → DoesAll vxdb_unique (dissolution gid) c d
    → Ungrouped true c d gid xid
dissolved gid xid c d (m, first, (n, second, same)) =
    let whole = same ∙ second in
    (
      subst (λ z. NoneHolds z "xid_gid_map" (of_gid gid)) (sym whole)
          (subst (λ z. NoneHolds z "xid_gid_map" (of_gid gid)) (sym first)
            (delete-without (of_gid gid) (c "xid_gid_map"))),
      subst (λ z. NoneHolds z "groups" (of_gid gid)) (sym whole)
          (delete-without (of_gid gid) (m "groups")),
    )

parted :
    (gid : ℤ) (xid : ℕ) (c d : Contents)
    → xid ≢ 0
    → DoesAll vxdb_unique (delete "xid_gid_map" (member_row xid gid) ∷ []) c d
    → Ungrouped false c d gid xid
parted gid xid c d some_xid (m, first, same) =
    let whole = same ∙ first in
    (
      some_xid,
      subst (λ z. NoneHolds z "xid_gid_map" (member_row xid gid)) (sym whole)
          (delete-without (member_row xid gid) (c "xid_gid_map")),
      ap (λ z. z "groups") whole,
    )

module _ ⦃p : Platform⦄ where
  require_gid-then :
      {B : Type 0} (group : String) (f : ℤ → M B) (s t : State) (b : B)
      → (require_gid group >>= f) s ≡ (ok b, t)
      → (vxdb_getgid s.db group ≢ pos 0) × (f (vxdb_getgid s.db group) s ≡ (ok b, t))
  unfolding require_gid
  require_gid-then group f s t b e = elim (Bool-cases (eqb_ℤ (vxdb_getgid s.db group) (pos 0))) [
    | inl missing ↦ absurd (let e' = rw (missing, require_gid) at e in ground (arith, e'))
    | inr there ↦ (
      λ none_there.
          absurd (ground (arith, there, (eqb_ℤ_iff (vxdb_getgid s.db group) (pos 0)).1 none_there)),
      rw (there, require_gid) at e,
    )
  ]

  -- What vg.remove leaves of the contents `c`, for the names that a request has.
  abbrev pub Left : Contents → Contents → String → String → Type 0
  Left c d group name =
      (vxdb_getgid c group ≢ pos 0)
      × Ungrouped (str_isempty name) c d (vxdb_getgid c group) (vxdb_getxid c name)

  dissolves :
      (gid : ℤ) (xid : ℕ) (s t : State) (r : Reply)
      → (exec_or_fault (dissolution gid) >>= λ _. pure nil) s ≡ (ok r, t)
      → Ungrouped true s.db t.db gid xid
  dissolves gid xid s t r e =
      let (d, went, ended) = exec_or_fault-then (dissolution gid) (λ _. pure nil) s t r e in
      subst (λ c. Ungrouped true s.db c gid xid) (ap (λ z. z.1.db) ended)
        (dissolved gid xid s.db d (p.exec_sound _ s.db d (dissolution-clean gid) went))

  abbrev part : String → ℤ → M Reply
  part name gid = fault_if (not (validate_name name)) meinval >>= λ _. require_xid name >>= λ xid.
      exec_or_fault (delete "xid_gid_map" (member_row xid gid) ∷ []) >>= λ _. pure nil

  parts :
      (name : String) (gid : ℤ) (s t : State) (r : Reply)
      → part name gid s ≡ (ok r, t)
      → Ungrouped false s.db t.db gid (vxdb_getxid s.db name)
  parts name gid s t r e =
      let (_, named) = fault_if-then _ _ _ s t r e in
      let (some_xid, last) = require_xid-then name _ s t r named in
      let xid = vxdb_getxid s.db name in
      let (d, went, ended) = exec_or_fault-then _ _ s t r last in
      subst (λ c. Ungrouped false s.db c gid xid) (ap (λ z. z.1.db) ended)
        (parted gid xid s.db d some_xid (p.exec_sound _ s.db d (parting-clean xid gid) went))

  chosen :
      (name : String) (gid : ℤ) (s t : State) (r : Reply)
      → (if not (str_isempty name)
            then part name gid
            else (exec_or_fault (dissolution gid) >>= λ _. pure nil))
          s
        ≡ (ok r, t)
      → Ungrouped (str_isempty name) s.db t.db gid (vxdb_getxid s.db name)
  chosen name gid s t r e = elim (Bool-cases (str_isempty name)) [
    | inl empty ↦ rw empty (dissolves gid (vxdb_getxid s.db name) s t r (rw empty at e))
    | inr given ↦ rw given (parts name gid s t r (rw given at e))
  ]

  -- When vg.remove succeeds for a client, the group that it names had a group id. Without the name of a
  -- virtual server no row of the groups and of their members has that id any more; with one, which
  -- then had a context id, no row has the two ids together, and the groups are as they were.
  pub m_vg_remove-Ungrouped :
      (credentials params : Params) (group name : String) (s t : State) (r : Reply)
      → member "group" params ≡ some (str group)
      → member "name" params ≡ some (str name)
      → m_vg_remove (external credentials params) s ≡ (ok r, t)
      → Left (counted s).db t.db group name
  unfolding m_vg_remove
  m_vg_remove-Ungrouped credentials params group name s t r is_group is_name e =
      let (s', same, body) = init-then _ _ _ credentials params s t r e in
      let (g, has_group, body2) = get_str-then "group" params _ s' t r body in
      let (n, has_name, body3) = get_str-then "name" params _ s' t r body2 in
      let (_, body4) = fault_if-then _ _ _ s' t r body3 in
      let (_, body5) = fault_if-then _ _ _ s' t r body4 in
      let (some_gid, last) = require_gid-then g _ s' t r body5 in
      let done : Left s'.db t.db g n = (some_gid, chosen n (vxdb_getgid s'.db g) s' t r last) in
      subst (λ c. Left c t.db group name) same
        (subst (λ k. Left s'.db t.db group k) (str-injective n name (sym has_name ∙ is_name))
          (subst (λ k. Left s'.db t.db k n) (str-injective g group (sym has_group ∙ is_group))
            done))
