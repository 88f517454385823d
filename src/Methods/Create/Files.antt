-- ===== src/Methods/Create/Files.antt =====
-- src/vcd/methods/vx/vx_create.c: the file system of a new virtual server, linked or copied from its
-- template. An operation on a file is recorded by its name and the path.
use vcd.Base.{
  ℕ, Bool, true, false, not, ◌&&◌, ◌||◌, String, List, [], ◌∷◌, if◌then◌else◌, ltb, bit_or, str_cat,
}
use vcd.Platform.{Platform}
use vcd.Kernel.{
  Flags, Syscall, file, ix_attr_set, runlink, Entry, FileType, ftw_d, ftw_f, ftw_sl, ftw_other,
}
use vcd.Call.{Result, ok, fault, M, pure, raise, looks, ◌>>=◌, ◌>>◌, fault_if}
use vcd.Call.Sys.{sys, must, must_if}
use vcd.Methods.{mesys}

-- The static variables that the walk reads.
pub record Target : Type 0 where
  pub xid : ℕ
  pub vdir : String
  pub copy : Bool
  pub has_tagxid : Bool

module _ ⦃p : Platform⦄ where
  abbrev pub link_flags : Flags
  link_flags =
      let bits = bit_or (p.constant "IATTR_IUNLINK") (p.constant "IATTR_IMMUTABLE") in
      record { flags = bits; mask = bits }

  abbrev pub tag_flags : Flags
  tag_flags = record { flags = p.constant "IATTR_TAG"; mask = p.constant "IATTR_TAG" }

  -- fchownat and fchmodat where they are asked for, and the tag with the context id if the file system
  -- has tags.
  unfoldable pub finish_file : Target → String → Bool → M (Unit {0})
  finish_file t fpath do_chmod = do
    must (file "fchownat" fpath)
    must_if do_chmod (file "fchmodat" fpath)
    must_if t.has_tagxid (ix_attr_set (str_cat t.vdir (str_cat "/" fpath)) t.xid tag_flags)

  unfoldable pub copy_or_link : Target → String → Bool → M (Unit {0})
  unfolding finish_file
  copy_or_link t fpath true = do
    must (file "open" fpath)
    must (file "openat" fpath)
    must (file "copy_file" fpath)
    finish_file t fpath true
  copy_or_link t fpath false = do must (ix_attr_set fpath 0 link_flags); must (file "linkat" fpath)

  -- One file, by its type.
  unfoldable pub handle_entry : Target → String → FileType → M (Unit {0})
  unfolding copy_or_link finish_file
  handle_entry t fpath ftw_d = do must (file "mkdirat" fpath); finish_file t fpath false
  handle_entry t fpath ftw_f = copy_or_link t fpath t.copy
  handle_entry t fpath ftw_sl = do
    must (file "readsymlink" fpath)
    must (file "symlinkat" fpath)
    finish_file t fpath false
  handle_entry t fpath ftw_other = pure tt

  -- The directory itself, devices, fifos and sockets are left out.
  abbrev pub is_skipped : Entry → Bool
  is_skipped e = ltb e.level 1 || e.special

  abbrev pub is_other : FileType → Bool
  is_other ftw_other = true
  is_other _ = false

  -- nftw over the files of the template, up to the first failure. A file of another type sets a fault
  -- and does not end the walk.
  unfoldable pub copy_tree : Target → Bool → List Entry → M (Unit {0})
  unfolding handle_entry
  copy_tree t bad [] = fault_if bad mesys
  copy_tree t bad (e ∷ es) =
      let other = is_other e.typeflag in
      let rest = copy_tree t (bad || not (is_skipped e) && other) es in
      if is_skipped e || other then rest else handle_entry t e.fpath e.typeflag >> rest

  abbrev same_dev : Bool → M Bool
  same_dev true = pure true
  same_dev false = do
    must (file "fstat" ".")
    must (file "lstat" ".")
    same ← looks p.same_device
    pure (not same)

  -- `tdir` is the directory of the template; `xid` is that of the new virtual server.
  unfoldable pub make_vserver_filesystem : ℕ → String → String → Bool → M (Unit {0})
  unfolding copy_tree
  make_vserver_filesystem xid vdir tdir copy = do
    must (file "chroot_secure_chdir" vdir)
    must (file "ix_attr_get" ".")
    tagged ← looks p.has_tagxid
    sys (file "chdir" tdir)
    copies ← same_dev copy
    files ← looks p.template_files
    copy_tree (record { xid = xid; vdir = vdir; copy = copies; has_tagxid = tagged }) false files

  abbrev cleaned : Syscall → Result (Unit {0}) → M (Unit {0})
  cleaned c (ok a) = pure tt
  cleaned c (fault f) = do sys c; raise f

  -- A call that is made where the steps have set a fault, which stays.
  unfoldable pub or_clean : M (Unit {0}) → Syscall → M (Unit {0})
  or_clean m c s = let (r, s') = m s in cleaned c r s'

  unfoldable pub must_all : List Syscall → M (Unit {0})
  must_all [] = pure tt
  must_all (c ∷ cs) = must c >> must_all cs

  -- The device nodes, up to the first that fails.
  abbrev pub device_nodes : List Syscall
  device_nodes =
      file "runlink" "dev"
      ∷ file "mkdir" "dev"
      ∷ file "mkdir" "dev/pts"
      ∷ file "mknod" "dev/null"
      ∷ file "mknod" "dev/zero"
      ∷ file "mknod" "dev/full"
      ∷ file "mknod" "dev/random"
      ∷ file "mknod" "dev/urandom"
      ∷ file "mknod" "dev/tty"
      ∷ file "mknod" "dev/ptmx"
      ∷ []

  -- The part of build_root_filesystem that comes after find_free_xid.
  unfoldable pub fill_root : ℕ → String → String → Bool → M (Unit {0})
  unfolding make_vserver_filesystem or_clean must_all
  fill_root xid vdir tdir copy = do
    must (file "mkdirp" vdir)
    or_clean (make_vserver_filesystem xid vdir tdir copy) (runlink vdir)
    must (file "chroot_secure_chdir" vdir)
    must_all device_nodes
