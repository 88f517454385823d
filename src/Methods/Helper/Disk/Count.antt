-- ===== src/Methods/Helper/Disk/Count.antt =====
-- What the walk over the files of a virtual server counts: against a list of files, for the case that
-- each file has a struct stat of its own, and for the case that nftw has one for all of them.
use vcd.Base.{
  ℕ, ◌+◌, ◌^◌, ◌%◌, ◌<◌, Bool, true, false, not, ◌&&◌, ◌||◌, List, [], ◌∷◌, Option, none, some, ◌≡◌,
  refl, subst, arith, if◌then◌else◌, ◌==◌, bit_and, All, Bool-cases, inl, inr,
}
use mathlib.Core.Option.{some-injective}
use vcd.Platform.{Platform}
use vcd.Kernel.{Visit}
use vcd.Methods.Helper.Disk.{Usage, put_at, tfind, tsearch, add_blocks, handle_file, walk}

unfoldable pub sum_blocks : List Visit → ℕ
sum_blocks [] = 0
sum_blocks (v ∷ vs) = v.st_blocks + sum_blocks vs

-- The library's length, as a native number.
unfoldable pub length : List Visit → ℕ
length [] = 0
length (v ∷ vs) = 1 + length vs

-- The state in which a file has been looked at.
abbrev pub seeing : Visit → Usage → Usage
seeing v u = record u { memory = put_at v.sb v.st_ino u.memory }

-- A table of files, seen from outside: which file is found in it, and what it is with a file added.
pub record FileTable (T : Type 0) : Type 0 where
  pub found : T → Visit → Bool
  pub added : T → Visit → T

-- The table stands for the one of the walk, as long as these files are to come.
pub record Stands {T : Type 0} (table : FileTable T)
    (R : List ℕ → (ℕ → ℕ) → T → List Visit → Type 0) : Type 0 where
  pub same :
      (u : Usage) (t : T) (v : Visit) (vs : List Visit)
      → R u.inotable u.memory t (v ∷ vs)
      → tfind (seeing v u) v.sb ≡ table.found t v
  pub skip :
      (u : Usage) (t : T) (v : Visit) (vs : List Visit)
      → R u.inotable u.memory t (v ∷ vs)
      → R u.inotable (seeing v u).memory t vs
  pub add :
      (u : Usage) (t : T) (v : Visit) (vs : List Visit)
      → R u.inotable u.memory t (v ∷ vs)
      → R (tsearch (seeing v u) v.sb) (seeing v u).memory (table.added t v) vs

-- ix_attr_get succeeds for the file.
abbrev pub IsReadable : Visit → Type 0
IsReadable v = (a : ℕ × ℕ) × (v.attr ≡ some a)

module _ ⦃p : Platform⦄ (xid : ℕ) where
  readable_step :
      (v : Visit) (vs : List Visit) (u : Usage)
      → IsReadable v
      → ((u : Usage) → (w : Usage) × (walk xid vs u ≡ some w))
      → (w : Usage) × (walk xid (v ∷ vs) u ≡ some w)
  unfolding walk handle_file
  readable_step v vs u ((flags, owner), attr) rest =
      elim (Bool-cases (bit_and flags (p.constant "IATTR_TAG") == 0)) [
        | inl untagged ↦ rw (attr, untagged) (rest _)
        | inr tagged ↦ rw (attr, tagged) (rest _)
      ]

  -- The walk fails at no file but one that cannot be read.
  pub walk-total :
      (vs : List Visit) (u : Usage) → All IsReadable vs → (w : Usage) × (walk xid vs u ≡ some w)
  unfolding walk
  walk-total [] u h = (u, refl)
  walk-total (v ∷ vs) u h = readable_step v vs u h.0 (λ w. walk-total vs w h.1)

module _ ⦃p : Platform⦄ (xid : ℕ) {T : Type 0} (table : FileTable T) where
  abbrev is_new : T → Visit → Bool
  is_new t v = v.st_nlink == 1 || not (table.found t v)

  abbrev own_if : Bool → Visit → List Visit → List Visit
  own_if b v vs = if b then v ∷ vs else vs

  abbrev is_tagged : ℕ → Bool
  is_tagged flags = not (bit_and flags (p.constant "IATTR_TAG") == 0)

  -- The files of the context that the walk counts.
  unfoldable pub counted_files : T → List Visit → List Visit
  counted_files t [] = []
  counted_files t (v ∷ vs) =
      let skipped = counted_files t vs in
      let rest = counted_files (table.added t v) vs in
      elim v.attr [
        | none ↦ []
        | some (flags, owner) ↦
            if is_tagged flags && is_new t v then own_if (owner == xid) v rest else skipped
      ]

  module _ {R : List ℕ → (ℕ → ℕ) → T → List Visit → Type 0} (stands : Stands table R) where
    abbrev Counts : Usage → Usage → List Visit → Type 0
    Counts u w vs =
        (w.used_blocks ≡ (u.used_blocks + sum_blocks vs) % 2 ^ 32)
        × (w.used_inodes ≡ (u.used_inodes + length vs) % 2 ^ 32)

    abbrev Small : Usage → Type 0
    Small u = (u.used_blocks < 2 ^ 32) × (u.used_inodes < 2 ^ 32)

    -- One more file.
    Counts-add :
        (b : Bool) (v : Visit) (l : List ℕ) (m : ℕ → ℕ) (u w : Usage) (vs : List Visit)
        → Counts (record (add_blocks b v u) { inotable = l; memory = m }) w vs
        → Counts u w (own_if b v vs)
    unfolding sum_blocks length
    Counts-add true v l m u w vs h = (omega arith, omega arith)
    Counts-add false v l m u w vs h = h

    Small-add : (b : Bool) (v : Visit) (u : Usage) → Small u → Small (add_blocks b v u)
    Small-add true v u h = (omega arith, omega arith)
    Small-add false v u h = h

    Counted : List Visit → Type 0
    Counted vs =
        (u w : Usage) (t : T)
        → Small u
        → R u.inotable u.memory t vs
        → walk xid vs u ≡ some w
        → Counts u w (counted_files t vs)

    Counted-step :
        (b : Bool) (v : Visit) (vs : List Visit) (u w : Usage) (t : T)
        → Small u
        → R (tsearch (seeing v u) v.sb) (seeing v u).memory (table.added t v) vs
        → walk xid vs
            (record (add_blocks b v (seeing v u)) { inotable = tsearch (seeing v u) v.sb })
          ≡ some w
        → Counted vs
        → Counts u w (own_if b v (counted_files (table.added t v) vs))
    unfolding Counted
    Counted-step true v vs u w t small r e ih =
        let next = record (add_blocks true v (seeing v u)) {
          inotable = tsearch (seeing v u) v.sb;
        } in
        Counts-add true v next.inotable next.memory u w (counted_files (table.added t v) vs)
          (ih next w (table.added t v) (Small-add true v u small) r e)
    Counted-step false v vs u w t small r e ih =
        ih (record (seeing v u) { inotable = tsearch (seeing v u) v.sb }) w (table.added t v) small
          r e

    attr_step :
        (o : Option (ℕ × ℕ)) (v : Visit) (vs : List Visit) (u w : Usage) (t : T)
        → v.attr ≡ o
        → Small u
        → R u.inotable u.memory t (v ∷ vs)
        → walk xid (v ∷ vs) u ≡ some w
        → Counted vs
        → Counts u w (counted_files t (v ∷ vs))
    unfolding Counted walk handle_file counted_files
    attr_step none v vs u w t attr small r e ih =
        absurd (let e' = rw (attr, walk, handle_file) at e in ground (arith, e'))
    attr_step (some (flags, owner)) v vs u w t attr small r e ih =
        elim (Bool-cases (bit_and flags (p.constant "IATTR_TAG") == 0)) [
          | inl untagged ↦
              let e' = rw (attr, untagged, walk, handle_file) at e in
              rw (attr, untagged, counted_files)
                (ih (seeing v u) w t small (stands.skip u t v vs r) e')
          | inr tagged ↦
              let same = stands.same u t v vs r in
              elim (Bool-cases (v.st_nlink == 1 || not (table.found t v))) [
                | inl new ↦
                    let e' = rw (attr, tagged, same, new, walk, handle_file) at e in
                    rw (attr, tagged, new, counted_files)
                      (Counted-step (owner == xid) v vs u w t small (stands.add u t v vs r) e' ih)
                | inr old ↦
                    let e' = rw (attr, tagged, same, old, walk, handle_file) at e in
                    rw (attr, tagged, old, counted_files)
                      (ih (seeing v u) w t small (stands.skip u t v vs r) e')
              ]
        ]

    pub walk-Counts :
        (vs : List Visit) (u w : Usage) (t : T)
        → Small u
        → R u.inotable u.memory t vs
        → walk xid vs u ≡ some w
        → Counts u w (counted_files t vs)
    unfolding Counted walk counted_files sum_blocks length
    walk-Counts [] u w t small r e =
        let same : u ≡ w = some-injective u w e in
        subst (λ x. Counts u x []) same (omega arith, omega arith)
    walk-Counts (v ∷ vs) u w t small r e =
        attr_step v.attr v vs u w t refl small r e (walk-Counts vs)
