-- ===== src/Methods/Helper/Disk.antt =====
-- src/vcd/methods/helper/helper_startup.c: what the files of a virtual server use of the disk.
-- The table of inodes keeps the address of the inode number in the struct stat that nftw hands over,
-- and not the number; a search compares what stands at these addresses by then.
pub mod Count
pub mod Buffers
use vcd.Base.{
  ℕ, ◌+◌, ◌^◌, ◌%◌, Bool, true, false, not, ◌||◌, List, [], ◌∷◌, Option, none, some, if◌then◌else◌,
  ◌==◌, bit_and, any,
}
use vcd.Platform.{Platform}
use vcd.Kernel.{Visit}

-- inotable, used_blocks and used_inodes, and what stands at each address.
pub record Usage : Type 0 where
  pub inotable : List ℕ
  pub used_blocks : ℕ
  pub used_inodes : ℕ
  pub memory : ℕ → ℕ

abbrev pub nothing_used : Usage
nothing_used = record { inotable = []; used_blocks = 0; used_inodes = 0; memory = λ a. 0 }

abbrev pub put_at : ℕ → ℕ → (ℕ → ℕ) → ℕ → ℕ
put_at a v memory b = if a == b then v else memory b

-- A key of the table is equal, by inocmp.
unfoldable pub tfind : Usage → ℕ → Bool
unfolding any
tfind u a = any (λ b. u.memory b == u.memory a) u.inotable

-- A new key, unless there is an equal one.
unfoldable pub tsearch : Usage → ℕ → List ℕ
unfolding tfind
tsearch u a = if tfind u a then u.inotable else a ∷ u.inotable

abbrev pub add_blocks : Bool → Visit → Usage → Usage
add_blocks true v u = record u {
  used_blocks = (u.used_blocks + v.st_blocks) % 2 ^ 32;
  used_inodes = (u.used_inodes + 1) % 2 ^ 32;
}
add_blocks false v u = u

module _ ⦃p : Platform⦄ (xid : ℕ) where
  abbrev pub count_file : Bool → Visit → ℕ → Usage → Usage
  count_file true v owner u = record (add_blocks (owner == xid) v u) { inotable = tsearch u v.sb }
  count_file false v owner u = u

  -- A file, `none` where ix_attr_get fails. Memory for a key of the table is assumed.
  unfoldable pub handle_file : Visit → Usage → Option Usage
  unfolding tfind tsearch
  handle_file v u =
      let u' = record u { memory = put_at v.sb v.st_ino u.memory } in
      elim v.attr [
        | none ↦ none
        | some (flags, owner) ↦ some (
            if bit_and flags (p.constant "IATTR_TAG") == 0
            then u'
            else count_file (v.st_nlink == 1 || not (tfind u' v.sb)) v owner u')
      ]

  -- nftw, up to the first failure.
  unfoldable pub walk : List Visit → Usage → Option Usage
  unfolding handle_file
  walk [] u = some u
  walk (v ∷ vs) u = elim (handle_file v u) [ none ↦ none | some u' ↦ walk vs u' ]
