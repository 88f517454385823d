-- ===== src/Methods/Create/Ids/Fresh.antt =====
-- The context id that vx.create finds is not in use.
use mathlib.Core.List.{Mem, mem-cons, not-mem-nil}
use mathlib.Core.Logic.Or
use mathlib.Core.Bool.{Bool-set}
use vcd.Base.{
  ℕ, suc, ◌+◌, ◌≤◌, ◌<◌, ◌%◌, ◌^◌, true, false, List, [], ◌∷◌, Option, none, some, ◌≡◌, refl, sym,
  subst, ap, ◌∙◌, arith, All, keep, Bool-cases, inl, inr, ltb, ◌==◌,
}
use vcd.Base.Int.{as_int, eqb_ℤ, suc_int, to_int, to_int-same, pos, ltb_ℤ}
use vcd.Sql.{Value, int, Row, Contents, field, holds, query_clean}
use vcd.Sql.Answers.{answer, greatest, count_rows}
use vcd.Platform.{Platform, IsHealthy}
use vcd.Validate.{validate_xid}
use vcd.Vxdb.{vxdb_column_int, column, vxdb_getname}
use vcd.Vxdb.Rows.{of_xid, rows_of}
use vcd.Call.{State, ok, reads, fault_if}
use vcd.Call.Fetch.{foreach_complete}
use vcd.Methods.Create.Ids.{find_free_xid, ids_query, choose_all, choose_xid}

-- A row of a context id that is neither 0 nor above the last one.
abbrev pub HasId : Row → Type 0
HasId r = (n : ℕ) × (field "xid" r ≡ some (int (pos n))) × (1 < n) × (n < 65535)

-- The row's context id is at most this one.
abbrev UpTo : ℕ → Row → Type 0
UpTo m r = (n : ℕ) × (field "xid" r ≡ some (int (pos n))) × (n ≤ m)

UpTo-mono : (m k : ℕ) (rs : List Row) → m ≤ k → All (UpTo m) rs → All (UpTo k) rs
UpTo-mono m k [] le h = tt
UpTo-mono m k (r ∷ rs) le ((n, has, up), h) = ((n, has, omega arith), UpTo-mono m k rs le h)

-- The greatest context id of some rows.
pub greatest_lem :
    (r : Row) (rs : List Row)
    → All HasId (r ∷ rs)
    → (m : ℕ) × (greatest "xid" (r ∷ rs) ≡ some (pos m))
      × (1 < m)
      × (m < 65535)
      × All (UpTo m) (r ∷ rs)
unfolding greatest
greatest_lem r [] ((n, has, low, high), h) =
    (n, rw has refl, low, high, ((n, has, omega arith), tt))
greatest_lem r (q ∷ rs) ((n, has, low, high), h) =
    let (m, rest, low_m, high_m, up) = greatest_lem q rs h in
    elim (Bool-cases (ltb_ℤ (pos n) (pos m))) [
      | inl below ↦
          (m, rw (has, rest, below) refl, low_m, high_m, ((n, has, ground (arith, below)), up))
      | inr above ↦
          let le : m ≤ n = ground (arith, above) in
          (
            n,
            rw (has, rest, above) refl,
            low,
            high,
            ((n, has, omega arith), UpTo-mono m n (q ∷ rs) le up),
          )
    ]

count_rows-some :
    (r : Row) (rs : List Row) → All HasId (r ∷ rs) → (k : ℕ) × (count_rows "xid" (r ∷ rs) ≡ 1 + k)
unfolding count_rows
count_rows-some r rs ((n, has, low, high), h) = (count_rows "xid" rs, rw (has, count_rows) refl)

eqb_as_int-below : (m n : ℕ) → n ≤ m → eqb_ℤ (as_int (1 + m)) (pos n) ≡ false
unfolding as_int
eqb_as_int-below m n h = ground arith

not_held : (m : ℕ) (r : Row) → UpTo m r → holds (of_xid (1 + m)) r ≡ false
unfolding holds
not_held m r (n, has, up) = rw has (ground (arith, eqb_as_int-below m n up))

rows_of-above : (m : ℕ) (rs : List Row) → All (UpTo m) rs → rows_of (1 + m) rs ≡ []
unfolding keep
rows_of-above m [] h = refl
rows_of-above m (r ∷ rs) h = ground (arith, not_held m r h.0, rows_of-above m rs h.1)

number_up :
    (m n k : ℕ) (o : Option Value)
    → o ≡ some (int (pos k))
    → k ≤ m
    → o ≡ some (int (pos n))
    → ltb m n ≡ false
number_up m n k o is up has = ground (arith, sym is ∙ has)

UpTo-of_mem :
    (m n : ℕ) (rs : List Row) (q : Row)
    → All (UpTo m) rs
    → Mem q rs
    → field "xid" q ≡ some (int (pos n))
    → ltb m n ≡ false
UpTo-of_mem m n [] q h there has = absurd (not-mem-nil there)
UpTo-of_mem m n (r ∷ rs) q ((k, is, up), h) there has =
    Or.elim (Bool-set _ _) (mem-cons.0 there)
      (λ same. number_up m n k (field "xid" r) is up (ap (field "xid") (sym same) ∙ has))
      (λ later. UpTo-of_mem m n rs q h later has)

module _ ⦃p : Platform⦄ where
  -- The id after the greatest one.
  choose-next :
      (db : Contents) (k m : ℕ)
      → m < 65535
      → 1 + k < 2147483648
      → choose_xid db 0 (some (int (pos (1 + k))) ∷ some (int (pos m)) ∷ []) ≡ (1 + m, false)
  unfolding choose_xid vxdb_column_int column suc_int
  choose-next db k m high few =
      let wraps : (1 + m) % 2 ^ 32 ≡ 1 + m = omega arith in
      let count = to_int-same (pos (1 + k)) (ground arith) in
      let same = to_int-same (pos m) (ground arith) in
      let next : to_int (pos (suc m)) ≡ pos (suc m) = to_int-same (pos (suc m)) (ground arith) in
      let some_rows : ltb_ℤ (pos (1 + k)) (pos 1) ≡ false = ground arith in
      let below : ltb_ℤ (pos m) (pos 65535) ≡ true = ground arith in
      rw (count, some_rows, same, below, next)
        (ap (λ x. (x, false)) (ap (λ x. x % 2 ^ 32) (omega arith) ∙ wraps))

  chosen_of :
      (s : State) (k m : ℕ)
      → IsHealthy p
      → m < 65535
      → 1 + k < 2147483648
      → answer p.arrange ids_query s.db ≡ (some (int (pos (1 + k))) ∷ some (int (pos m)) ∷ []) ∷ []
      → find_free_xid 0 s ≡ (ok (1 + m), s)
  unfolding find_free_xid choose_all reads query_clean fault_if
  chosen_of s k m healthy high few rows =
      let (steps, prepared, seen) = foreach_complete ids_query s.db healthy refl in
      let next = choose-next s.db k m high few in
      let not_zero : (1 + m == 0) ≡ false = ground arith in
      rw (prepared, seen, rows, next, not_zero) refl

  chosen_next :
      (s : State) (r : Row) (rs : List Row) (m : ℕ)
      → IsHealthy p
      → s.db "xid_name_map" ≡ r ∷ rs
      → All HasId (r ∷ rs)
      → greatest "xid" (r ∷ rs) ≡ some (pos m)
      → m < 65535
      → count_rows "xid" (r ∷ rs) < 2147483648
      → find_free_xid 0 s ≡ (ok (1 + m), s)
  unfolding answer
  chosen_next s r rs m healthy table ids top high few =
      let (k, counted) = count_rows-some r rs ids in
      chosen_of s k m healthy high (subst (λ c. c < 2147483648) counted few)
        (rw (table, counted, top) refl)

  abbrev Fresh : State → ℕ → Type 0
  Fresh s x =
      (find_free_xid 0 s ≡ (ok x, s))
      × (rows_of x (s.db "xid_name_map") ≡ [])
      × (1 < x)
      × (x < 65536)

  Fresh-of :
      (s : State) (rows : List Row)
      → IsHealthy p
      → s.db "xid_name_map" ≡ rows
      → All HasId rows
      → count_rows "xid" rows < 2147483648
      → (x : ℕ) × Fresh s x
  unfolding to_int find_free_xid choose_all choose_xid reads answer vxdb_column_int column
      query_clean keep count_rows greatest fault_if
  Fresh-of s [] healthy table ids few =
      let (steps, prepared, seen) = foreach_complete ids_query s.db healthy refl in
      (2, (rw (prepared, seen, table) refl, rw table refl, omega arith, omega arith))
  Fresh-of s (r ∷ rs) healthy table ids few =
      let (m, top, low, high, up) = greatest_lem r rs ids in
      (
        1 + m,
        (
          chosen_next s r rs m healthy table ids top high few,
          rw table (rows_of-above m (r ∷ rs) up),
          omega arith,
          omega arith,
        ),
      )

  -- While no call of sqlite fails and the names in the database, fewer than 2^31, have context ids
  -- between 2 and 65534, vx.create finds a context id for a new virtual server, from 2 to 65535, that no row has.
  pub find_free_xid-fresh :
      (s : State)
      → IsHealthy p
      → All HasId (s.db "xid_name_map")
      → count_rows "xid" (s.db "xid_name_map") < 2147483648
      → (x : ℕ) × (find_free_xid 0 s ≡ (ok x, s))
        × (rows_of x (s.db "xid_name_map") ≡ [])
        × (1 < x)
        × (x < 65536)
  find_free_xid-fresh s healthy ids few =
      let (x, (found, none_has, low, high)) =
        Fresh-of s (s.db "xid_name_map") healthy refl ids few in
      (x, found, none_has, low, high)

  last_of :
      (s : State) (rows : List Row) (q : Row)
      → IsHealthy p
      → s.db "xid_name_map" ≡ rows
      → All HasId rows
      → count_rows "xid" rows < 2147483648
      → Mem q rows
      → field "xid" q ≡ some (int (pos 65534))
      → find_free_xid 0 s ≡ (ok 65535, s)
  last_of s [] q healthy table ids few there has = absurd (not-mem-nil there)
  last_of s (r ∷ rs) q healthy table ids few there has =
      let (m, top, low, high, up) = greatest_lem r rs ids in
      let least = UpTo-of_mem m 65534 (r ∷ rs) q up there has in
      let last : m ≡ 65534 = ground (arith, least) in
      chosen_next s r rs m healthy table ids top high few ∙ ap (λ k. (ok (1 + k), s)) last

  -- While no call of sqlite fails and the names in the database, fewer than 2^31, have context ids
  -- between 2 and 65534, the last of which is in use, the id that is found is 65535, for which
  -- vxdb_getname finds no name, whatever the database holds.
  pub find_free_xid-refused :
      (s : State) (q : Row)
      → IsHealthy p
      → All HasId (s.db "xid_name_map")
      → count_rows "xid" (s.db "xid_name_map") < 2147483648
      → Mem q (s.db "xid_name_map")
      → field "xid" q ≡ some (int (pos 65534))
      → (find_free_xid 0 s ≡ (ok 65535, s)) × ((db : Contents) → vxdb_getname db 65535 ≡ none)
  unfolding vxdb_getname validate_xid
  find_free_xid-refused s q healthy ids few there has =
      (last_of s (s.db "xid_name_map") q healthy refl ids few there has, λ db. refl)
