-- ===== src/Config.antt =====
-- src/vcd/cfg.c: the checks of the options in the daemon's configuration. libconfuse calls them with the
-- text of an option while it parses.
use vcd.Base.{not, ◌||◌, String, Option, none, some, if◌then◌else◌}
use vcd.Base.Int.{ℤ, pos, ltb_ℤ}
use vcd.Platform.{Platform}
use vcd.Kernel.{Lstat, missing, unreached, directory, no_directory, file}
use vcd.Call.{M, pure, looks, ◌>>=◌}
use vcd.Call.Sys.{sys}

-- What a check does: the value is taken (0), it is an error of the configuration (-1), or the daemon ends.
pub data Checked (A : Type 0) : Type 0 where
  taken : A → Checked A
  refused : Checked A
  died : Checked A

module _ ⦃p : Platform⦄ where
  unfoldable pub cfg_validate_host : String → Checked String
  cfg_validate_host value = if ltb_ℤ (p.addr_from_str value) (pos 1) then refused else taken value

  abbrev in_range : ℤ → Option ℤ → Checked ℤ
  in_range high none = refused
  in_range high (some n) = if ltb_ℤ n (pos 1) || ltb_ℤ high n then refused else taken n

  unfoldable pub cfg_validate_port : String → Checked ℤ
  cfg_validate_port value = in_range (pos 65536) (p.scan_int value)

  unfoldable pub cfg_validate_timeout : String → Checked ℤ
  cfg_validate_timeout value = in_range (pos 3600) (p.scan_int value)

  abbrev with_directory : String → Lstat → M (Checked String)
  with_directory value missing = do
    made ← sys (file "mkdirp" value)
    pure (if made then taken value else died)
  with_directory value unreached = pure died
  with_directory value directory = pure (taken value)
  with_directory value no_directory = pure died

  -- A directory that is missing is made.
  unfoldable pub cfg_validate_dir : String → M (Checked String)
  cfg_validate_dir value = do
    found ← looks (λ h. p.lstat h value)
    if not (p.str_path_isabs value) then pure refused else with_directory value found
