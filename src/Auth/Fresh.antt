-- ===== src/Auth/Fresh.antt =====
-- The id of the next user.
use mathlib.Core.List.{Mem, mem-cons_self, not-mem-nil}
use mathlib.Core.List.Perm
use vcd.Base.{
  zero, suc, Bool, true, List, [], ◌∷◌, map, Option, none, some, ◌≡◌, refl, sym, subst, arith, keep,
  all, false, ◌&&◌, holds_of_mem-all,
}
use vcd.Base.Int.{ℤ, pos, negsuc, ◌<ℤ◌, ◌≤ℤ◌, is_int, ltb_ℤ, to_int, to_int-same, suc_int}
use vcd.Platform.{Platform, IsHealthy}
use vcd.Sql.{
  Value, int, text, Row, Contents, select, limit_one, desc, field, holds, query_clean, row_clean,
}
use vcd.Sql.Answers.{Runs, answer, project, first_only}
use vcd.Vxdb.{first_row, vxdb_column_int, column}
use vcd.Vxdb.Lookup.{Completes-head}
use vcd.Auth.{auth_getnextuid}

keep-all : (rs : List Row) → keep (holds []) rs ≡ rs
unfolding keep holds
keep-all [] = refl
keep-all (r ∷ rs) = ground (arith, keep-all rs)

-- An `int` with a successor that is one too.
abbrev pub has_next : ℤ → Bool
has_next z = is_int z && ltb_ℤ z (pos 2147483647)

suc_int-lt : (a b : ℤ) → has_next b ≡ true → a ≤ℤ b → a <ℤ suc_int b
unfolding suc_int to_int
suc_int-lt a (pos n) small h = ground arith
suc_int-lt a (negsuc zero) small h = ground arith
suc_int-lt a (negsuc (suc n)) small h = ground arith

abbrev is_number : Option Value → Bool
is_number none = false
is_number (some (int z)) = has_next z
is_number (some (text s)) = false

-- Every user has a number as its id, an `int` below the greatest one.
abbrev pub Numbered : List Row → Type 0
Numbered rs = all (λ q. is_number (field "uid" q)) rs ≡ true

is_int-of_next : (z : ℤ) → has_next z ≡ true → is_int z ≡ true
is_int-of_next (pos n) h = ground arith
is_int-of_next (negsuc n) h = ground arith

number_of :
    (o : Option Value) → is_number o ≡ true → (a : ℤ) × (o ≡ some (int a)) × (has_next a ≡ true)
number_of none e = absurd (ground arith)
number_of (some (int a)) e = (a, refl, e)
number_of (some (text s)) e = absurd (ground arith)

module _ ⦃p : Platform⦄ (db : Contents) where
  highest :
      (rs : List Row)
      → p.arrange (desc "uid") (db "user") ≡ rs
      → answer p.arrange (limit_one (select ("uid" ∷ []) "user" [] (desc "uid"))) db
        ≡ first_only (map (project ("uid" ∷ [])) rs)
  unfolding answer
  highest rs e = rw (keep-all (db "user"), e) refl

  next_after :
      (rs : List Row) (q : Row) (a : ℤ)
      → p.arrange (desc "uid") (db "user") ≡ rs
      → IsHealthy p
      → Numbered (db "user")
      → Mem q (db "user")
      → field "uid" q ≡ some (int a)
      → a <ℤ auth_getnextuid db
  unfolding auth_getnextuid first_row query_clean row_clean project vxdb_column_int column
  next_after [] q a e healthy numbered there is_a = absurd (
      not-mem-nil
        (subst (Mem q) e ((Perm.mem_iff (p.arrange_perm (desc "uid") (db "user"))).1 there)))
  next_after (x ∷ xs) q a e healthy numbered there is_a =
      let query = limit_one (select ("uid" ∷ []) "user" [] (desc "uid")) in
      let (steps, prepared, completes) = healthy.prepare_total query db refl in
      let runs =
        subst (λ l. Runs l steps) (highest (x ∷ xs) e)
          (p.prepare_sound query db steps refl prepared) in
      let head = Completes-head (project ("uid" ∷ []) x) [] steps runs completes in
      let first = subst (Mem x) (sym e) mem-cons_self in
      let member = (Perm.mem_iff (p.arrange_perm (desc "uid") (db "user"))).0 first in
      let (b, is_b, small) =
        number_of (field "uid" x) (holds_of_mem-all _ (db "user") numbered member) in
      let same = to_int-same b (is_int-of_next b small) in
      rw (prepared, head, is_b, same)
        (suc_int-lt a b small (p.arrange_desc "uid" (db "user") xs x q a b e there is_a is_b))

  -- While sqlite answers every query, the id that auth_getnextuid gives is above that of every user,
  -- if all users have as their ids numbers that are `int`s below the greatest `int`, 2147483647.
  pub auth_getnextuid-fresh :
      (q : Row) (a : ℤ)
      → IsHealthy p
      → Numbered (db "user")
      → Mem q (db "user")
      → field "uid" q ≡ some (int a)
      → a <ℤ auth_getnextuid db
  auth_getnextuid-fresh q a healthy numbered there is_a =
      next_after (p.arrange (desc "uid") (db "user")) q a refl healthy numbered there is_a
