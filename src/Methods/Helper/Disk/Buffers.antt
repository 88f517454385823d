-- ===== src/Methods/Helper/Disk/Buffers.antt =====
-- The walk when nftw hands over the same struct stat for every file.
use vcd.Base.{
  ℕ, ◌^◌, ◌%◌, Bool, true, false, List, [], ◌∷◌, some, ◌≡◌, refl, sym, ap, ◌∙◌, arith, ◌==◌, any,
  All, Bool-cases, inl, inr,
}
use vcd.Platform.{Platform}
use vcd.Kernel.{Visit}
use vcd.Methods.Helper.Disk.{Usage, nothing_used, put_at, tfind, tsearch, walk}
use vcd.Methods.Helper.Disk.Count.{
  FileTable, Stands, seeing, counted_files, sum_blocks, length, walk-Counts, walk-total, IsReadable,
}

-- The table when all struct stat are one: whether a file is in it.
abbrev pub by_buffer : FileTable Bool
by_buffer = record { found = λ t v. t; added = λ t v. true }

abbrev nonempty : List ℕ → Bool
nonempty [] = false
nonempty (b ∷ ads) = true

abbrev OneBuffer : ℕ → List ℕ → (ℕ → ℕ) → Bool → List Visit → Type 0
OneBuffer a ads memory t vs = (nonempty ads ≡ t) × (All (λ b. b ≡ a) ads × All (λ v. v.sb ≡ a) vs)

found-one :
    (a c : ℕ) (memory : ℕ → ℕ) (ads : List ℕ)
    → c ≡ a
    → All (λ b. b ≡ a) ads
    → any (λ b. memory b == memory c) ads ≡ nonempty ads
unfolding any
found-one a c memory [] here h = refl
found-one a c memory (b ∷ ads) here h =
    let same : memory b ≡ memory c = ap memory (h.0 ∙ sym here) in ground (arith, same)

found-by_buffer :
    (a : ℕ) (u : Usage) (t : Bool) (v : Visit) (vs : List Visit)
    → OneBuffer a u.inotable u.memory t (v ∷ vs)
    → tfind (seeing v u) v.sb ≡ t
unfolding tfind
found-by_buffer a u t v vs h =
    found-one a v.sb (put_at v.sb v.st_ino u.memory) u.inotable h.1.1.0 h.1.0 ∙ h.0

add-by_buffer :
    (a : ℕ) (u : Usage) (t : Bool) (v : Visit) (vs : List Visit)
    → OneBuffer a u.inotable u.memory t (v ∷ vs)
    → OneBuffer a (tsearch (seeing v u) v.sb) (seeing v u).memory true vs
unfolding tsearch
add-by_buffer a u t v vs h =
    let same = found-by_buffer a u t v vs h in
    elim (Bool-cases t) [
      | inl some_there ↦ rw (same, some_there) (h.0 ∙ some_there, (h.1.0, h.1.1.1))
      | inr none_there ↦ rw (same, none_there) (refl, ((h.1.1.0, h.1.0), h.1.1.1))
    ]

by_buffer-Stands : (a : ℕ) → Stands by_buffer (OneBuffer a)
by_buffer-Stands a = record {
  same = found-by_buffer a;
  skip = λ u t v vs h. (h.0, (h.1.0, h.1.1.1));
  add = add-by_buffer a;
}

module _ ⦃p : Platform⦄ where
  -- When nftw has one struct stat for all files, every tagged file is equal to the first one for the
  -- table: of the files with more than one link only that one, if it is such a file, is counted, and
  -- the other ones are left out whatever their inode numbers are.
  pub walk-by_buffer :
      (xid a : ℕ) (vs : List Visit)
      → All (λ v. v.sb ≡ a) vs
      → All IsReadable vs
      → (w : Usage) × (walk xid vs nothing_used ≡ some w)
        × (w.used_blocks ≡ sum_blocks (counted_files xid by_buffer false vs) % 2 ^ 32)
        × (w.used_inodes ≡ length (counted_files xid by_buffer false vs) % 2 ^ 32)
  walk-by_buffer xid a vs one readable =
      let (w, e) = walk-total xid vs nothing_used readable in
      let (blocks, inodes) =
        walk-Counts xid by_buffer (by_buffer-Stands a) vs nothing_used w false
          (omega arith, omega arith) (refl, (tt, one)) e in
      (w, e, omega arith, omega arith)
