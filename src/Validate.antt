-- ===== src/Validate.antt =====
-- src/vcd/validate.c: the checks of every argument of a method. A text is its characters; `len`
-- counts its bytes, as str_len does.
pub mod Bounds
pub mod Flags
use vcd.Base.{
  code, len, starts_with, ℕ, ◌+◌, ◌-◌, ◌^◌, ◌%◌, Bool, true, false, not, ◌&&◌, ◌||◌, String, List,
  [], ◌∷◌, Option, none, some, if◌then◌else◌, ltb, ◌==◌, str_equal, all_chars,
}
use vcd.Base.Int.{ℤ, pos, negsuc, ltb_ℤ}
use vcd.Platform.{Platform}
use vcd.Lists.{bcaps_list, ccaps_list, cflags_list, uname_list, rlimit_list, vcd_caps_list}

abbrev pub str_isempty : String → Bool
str_isempty s = str_equal s ""

-- `(unsigned int)(c - k)`
abbrev pub sub_u32 : ℕ → ℕ → ℕ
sub_u32 c k = (c + 2 ^ 32 - k) % 2 ^ 32

unfoldable pub is_alnumextended : ℕ → Bool
is_alnumextended c =
    ltb (sub_u32 c b'a') 26
    || ltb (sub_u32 c b'A') 26
    || ltb (sub_u32 c b'0') 10
    || c == b'-'
    || c == b'_'

unfoldable pub str_isalnumextended : String → Bool
unfolding is_alnumextended all_chars
str_isalnumextended s = all_chars is_alnumextended s

unfoldable pub validate_name : String → Bool
unfolding str_isalnumextended
validate_name s =
    not (str_isempty s || ltb (len s) 3 || ltb 32 (len s) || not (str_isalnumextended s))

unfoldable pub validate_xid : ℕ → Bool
validate_xid xid = ltb 1 xid && ltb xid 65535

unfoldable pub validate_uname_value : String → Bool
validate_uname_value value = not (str_isempty value || ltb 64 (len value))

unfoldable pub validate_token_bucket : ℤ → ℤ → ℤ → ℤ → ℤ → ℤ → Bool
validate_token_bucket fillrate interval fillrate2 interval2 tokensmin tokensmax = not (
    ltb_ℤ fillrate (pos 1)
    || ltb_ℤ interval (pos 1)
    || ltb_ℤ tokensmax (pos 1)
    || ltb_ℤ fillrate2 (pos 1) && ltb_ℤ (pos 0) interval2
    || ltb_ℤ interval2 (pos 1) && ltb_ℤ (pos 0) fillrate2
    || ltb_ℤ interval fillrate
    || ltb_ℤ interval2 fillrate2
    || ltb_ℤ tokensmax fillrate
    || ltb_ℤ tokensmax fillrate2
    || ltb_ℤ tokensmax tokensmin)

-- `cpuset` without its first four characters
abbrev drop_four : String → String
drop_four (String.◌∷◌ a (String.◌∷◌ b (String.◌∷◌ c (String.◌∷◌ d s)))) = s
drop_four s = ""

abbrev ends_with_comma : String → Bool
ends_with_comma String.[] = false
ends_with_comma (String.◌∷◌ c String.[]) = code c == b','
ends_with_comma (String.◌∷◌ c s) = ends_with_comma s

module _ ⦃p : Platform⦄ where
  -- The loop of max_mem_node over the directory's entries; an entry without a number leaves the
  -- maximum.
  unfoldable pub max_node : ℤ → List String → ℤ
  max_node top [] = top
  max_node top (d ∷ ds) =
      let node = if starts_with d "node" then p.scan_int (drop_four d) else none in
      max_node (elim node [ none ↦ top | some n ↦ if ltb_ℤ top n then n else top ]) ds

  unfoldable pub max_mem_node : ℤ
  unfolding max_node
  max_mem_node = elim p.memory_nodes [ none ↦ pos 0 | some ds ↦ max_node (pos 0) ds ]

  unfoldable pub validate_path : String → Bool
  validate_path path = not (str_isempty path || not (p.str_path_isabs path))

  unfoldable pub validate_dlimits : ℕ → ℕ → ℤ → Bool
  validate_dlimits inodes space reserved =
      ltb_ℤ (pos 0) reserved
      && ltb_ℤ reserved (pos 100)
      && not (inodes == p.dlim_keep)
      && not (inodes == p.dlim_infinity)
      && not (space == p.dlim_keep)
      && not (space == p.dlim_infinity)

  unfoldable pub validate_addr : String → Bool
  validate_addr addr = not (str_isempty addr || ltb_ℤ (p.addr_from_str addr) (pos 1))

  unfoldable pub validate_username : String → Bool
  validate_username username = not (str_isempty username || not (p.str_isalnum username))

  -- The password may be NULL.
  unfoldable pub validate_password : Option String → Bool
  validate_password none = false
  validate_password (some password) = not (str_isempty password || ltb (len password) 8)

  unfoldable pub validate_group : String → Bool
  validate_group group = not (str_isempty group || not (p.str_isalnum group))

  unfoldable pub validate_vcd_cap : String → Bool
  validate_vcd_cap cap = not (str_isempty cap || p.flist_getval vcd_caps_list cap == 0)

  unfoldable pub validate_bcap : String → Bool
  validate_bcap bcap = not (str_isempty bcap || p.flist_getval bcaps_list bcap == 0)

  unfoldable pub validate_ccap : String → Bool
  validate_ccap ccap = not (str_isempty ccap || p.flist_getval ccaps_list ccap == 0)

  unfoldable pub validate_cflag : String → Bool
  validate_cflag cflag = not (str_isempty cflag || p.flist_getval cflags_list cflag == 0)

  unfoldable pub validate_rlimit : String → Bool
  validate_rlimit rlimit = not (str_isempty rlimit || p.flist_getval rlimit_list rlimit == 0)

  unfoldable pub validate_rlimits : ℕ → ℕ → Bool
  validate_rlimits soft max =
      not (soft == p.rlim_keep)
      && not (soft == p.rlim_infinity)
      && not (max == p.rlim_keep)
      && not (max == p.rlim_infinity)

  unfoldable pub validate_cpuid : ℤ → Bool
  validate_cpuid cpuid = not (ltb_ℤ cpuid (negsuc 0)) && ltb_ℤ cpuid (pos p.processors)

  -- The body of the loop of validate_cpuset for one token: type 0 is for processors and type 1 for
  -- memory nodes. A token of digits always gives a number.
  unfoldable pub validate_cpuset_token : ℕ → ℤ → ℤ → String → Bool
  validate_cpuset_token type maxcpus maxmems token =
      p.str_isdigit token && elim (p.scan_int token) [
        | none ↦ false
        | some id ↦
            if type == 0
            then not (ltb_ℤ id (pos 0)) && ltb_ℤ id maxcpus
            else type == 1 && not (ltb_ℤ id (pos 0)) && not (ltb_ℤ maxmems id)
      ]

  unfoldable pub validate_cpuset_tokens : ℕ → ℤ → ℤ → List String → Bool
  unfolding validate_cpuset_token
  validate_cpuset_tokens type maxcpus maxmems [] = true
  validate_cpuset_tokens type maxcpus maxmems (t ∷ ts) =
      validate_cpuset_token type maxcpus maxmems t && validate_cpuset_tokens type maxcpus maxmems ts

  unfoldable pub validate_cpuset : String → ℕ → Bool
  unfolding validate_cpuset_tokens max_mem_node
  validate_cpuset cpuset type =
      not (str_isempty cpuset)
      && not (starts_with cpuset "," || ends_with_comma cpuset)
      && elim (p.tokens cpuset ",") [
        | none ↦ false
        | some ts ↦
            if type == 0
            then validate_cpuset_tokens type (pos p.processors) (pos 0) ts
            else type == 1 && validate_cpuset_tokens type (pos 0) max_mem_node ts
      ]

  unfoldable pub validate_uname : String → Bool
  validate_uname uname = not (str_isempty uname || p.flist_getval uname_list uname == 0)
