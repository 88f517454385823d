-- ===== src/Methods/Server/Removal.antt =====
-- What vx.remove leaves behind.
use vcd.Base.{
  ℕ, Bool, true, false, not, String, List, [], ◌∷◌, map, ◌≡◌, refl, sym, ap, subst, ◌∙◌, arith, any,
  All, str_equal, str_equal_refl, Bool-cases, ◌⊎◌, inl, inr, keep-keep_disjoint, some,
}
use vcd.Platform.{Platform}
use vcd.Sql.{Row, Contents, delete, holds}
use vcd.Sql.Writes.{DoesAll, Does, delete_rows}
use vcd.Vxdb.{vxdb_getxid}
use vcd.Vxdb.Tables.{vxdb_unique}
use vcd.Vxdb.Rows.{rows_of, of_xid}
use vcd.Call.{State, ok, Params, str, member, external, Reply}
use vcd.Call.Sys.Steps.{must-then, looks-then}
use vcd.Call.Fetch.{exec_or_fault-then, fault_if-then}
use vcd.Methods.Gate.{counted}
use vcd.Methods.Passing.{init-then, get_str-then, require_xid-then, reads-then}
use vcd.Methods.Grant.{str-injective}
use vcd.Methods.Isolation.Server.{removal-clean}
use vcd.Methods.Server.{m_vx_remove, removal, removed_tables}

abbrev pub is_in : String → List String → Bool
is_in u ts = any (λ t. str_equal t u) ts

rows_of-delete_own : (n : ℕ) (rows : List Row) → rows_of n (delete_rows (of_xid n) rows) ≡ []
unfolding delete_rows
rows_of-delete_own n rows =
    keep-keep_disjoint (holds (of_xid n)) (λ s. not (holds (of_xid n) s)) (λ s h. ground (arith, h))
      rows

deleted-table :
    (t u : String) (n : ℕ) (c m : Contents)
    → Does vxdb_unique (delete t (of_xid n)) c m
    → (str_equal t u ≡ true) ⊎ (rows_of n (c u) ≡ [])
    → rows_of n (m u) ≡ []
deleted-table t u n c m does (inl same) =
    ap (λ z. rows_of n (z u)) does ∙ rw same (rows_of-delete_own n (c t))
deleted-table t u n c m does (inr empty) = elim (Bool-cases (str_equal t u)) [
  | inl same ↦ ap (λ z. rows_of n (z u)) does ∙ rw same (rows_of-delete_own n (c t))
  | inr other ↦ ap (λ z. rows_of n (z u)) does ∙ rw other empty
]

-- The rows of the context id are gone from every table that was emptied of them.
pub deleted-all :
    (ts : List String) (u : String) (n : ℕ) (c d : Contents)
    → DoesAll vxdb_unique (map (λ t. delete t (of_xid n)) ts) c d
    → (is_in u ts ≡ true) ⊎ (rows_of n (c u) ≡ [])
    → rows_of n (d u) ≡ []
unfolding any
deleted-all [] u n c d same (inl absent) = absurd (ground arith)
deleted-all [] u n c d same (inr empty) = ap (λ z. rows_of n (z u)) same ∙ empty
deleted-all (t ∷ ts) u n c d (m, does, rest) (inr empty) =
    deleted-all ts u n m d rest (inr (deleted-table t u n c m does (inr empty)))
deleted-all (t ∷ ts) u n c d (m, does, rest) (inl there) = elim (Bool-cases (str_equal t u)) [
  | inl same ↦ deleted-all ts u n m d rest (inr (deleted-table t u n c m does (inl same)))
  | inr other ↦ deleted-all ts u n m d rest (inl (ground (arith, other)))
]

pub deleted-others :
    (ts : List String) (u : String) (n : ℕ) (c d : Contents)
    → DoesAll vxdb_unique (map (λ t. delete t (of_xid n)) ts) c d
    → is_in u ts ≡ false
    → d u ≡ c u
unfolding any
deleted-others [] u n c d same absent = ap (λ z. z u) same
deleted-others (t ∷ ts) u n c d (m, does, rest) absent =
    let other : str_equal t u ≡ false = ground arith in
    deleted-others ts u n m d rest (ground (arith, other)) ∙ ap (λ z. z u) does ∙ rw other refl

-- No row of the context id is left in the table.
abbrev pub Emptied : Contents → ℕ → String → Type 0
Emptied d n u = rows_of n (d u) ≡ []

pub All-of_is_in :
    (P : String → Type 0) (ts : List String) → ((u : String) → is_in u ts ≡ true → P u) → All P ts
unfolding any
All-of_is_in P [] h = tt
All-of_is_in P (t ∷ ts) h = (
  h t (ground (arith, str_equal_refl t)),
  All-of_is_in P ts (λ u there. h u (ground (arith, there))),
)

All-Emptied :
    (n : ℕ) (c d : Contents)
    → DoesAll vxdb_unique (removal n) c d
    → All (Emptied d n) removed_tables
All-Emptied n c d does =
    All-of_is_in (Emptied d n) removed_tables
      (λ u there. deleted-all removed_tables u n c d does (inl there))

module _ ⦃p : Platform⦄ where
  -- When vx.remove succeeds for a client, no row with the context id of the virtual server that it
  -- names is left in the sixteen tables that it empties, and the table vx_cpuset is as it was.
  pub m_vx_remove-Emptied :
      (credentials params : Params) (name : String) (s t : State) (r : Reply)
      → member "name" params ≡ some (str name)
      → m_vx_remove (external credentials params) s ≡ (ok r, t)
      → All (Emptied t.db (vxdb_getxid (counted s).db name)) removed_tables
        × (t.db "vx_cpuset" ≡ (counted s).db "vx_cpuset")
  unfolding m_vx_remove any
  m_vx_remove-Emptied credentials params name s t r named e =
      let (s', same, body) = init-then _ _ _ credentials params s t r e in
      let (n, has_name, body2) = get_str-then "name" params _ s' t r body in
      let (_, body3) = require_xid-then n _ s' t r body2 in
      let body3' = looks-then _ _ s' t r body3 in
      let (_, body4) = fault_if-then _ _ _ s' t r body3' in
      let body5 = reads-then _ _ s' t r body4 in
      let (_, body6) = fault_if-then _ _ _ s' t r body5 in
      let xid = vxdb_getxid s'.db n in
      let (d, went, body7) = exec_or_fault-then (removal xid) _ s' t r body6 in
      let body8 = must-then _ _ _ t r body7 in
      let body9 = looks-then _ _ _ t r body8 in
      let (_, ended) = fault_if-then _ _ _ _ t r body9 in
      let does = p.exec_sound (removal xid) s'.db d (removal-clean xid) went in
      let kept = deleted-others removed_tables "vx_cpuset" xid s'.db d does refl in
      let is_xid : xid ≡ vxdb_getxid (counted s).db name =
        ap (λ c. vxdb_getxid c n) same
        ∙ ap (vxdb_getxid (counted s).db) (str-injective n name (sym has_name ∙ named)) in
      let left : d ≡ t.db = ap (λ z. z.1.db) ended in
      (
        subst (λ x. All (Emptied t.db x) removed_tables) is_xid
            (subst (λ c. All (Emptied c xid) removed_tables) left (All-Emptied xid s'.db d does)),
        sym (ap (λ c. c "vx_cpuset") left) ∙ kept ∙ ap (λ c. c "vx_cpuset") same,
      )
