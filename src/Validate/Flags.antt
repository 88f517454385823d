-- ===== src/Validate/Flags.antt =====
-- The checks of validate.c that look a word up in a flag list.
use vcd.Base.{
  ◌<◌, Bool, false, not, ◌||◌, String, [], ◌∷◌, ◌≡◌, refl, sym, ap, ◌∙◌, arith, any, All, str_equal,
  str_equal→eq, ◌==◌, Bool-cases, inl, inr,
}
use vcd.Platform.{Platform, Flist, value_of}
use vcd.Lists.{vcd_caps_list, bcaps_list, ccaps_list, cflags_list, rlimit_list, uname_list}
use vcd.Validate.{
  validate_vcd_cap, validate_bcap, validate_ccap, validate_cflag, validate_rlimit, validate_uname,
  str_isempty,
}

-- The word is a key of the list.
abbrev pub listed : Flist → String → Bool
listed l s = any (λ e. str_equal e.0 s) l

abbrev Positive : Flist → Type 0
Positive l = All (λ e. 0 < e.1) l

value_of-zero : (l : Flist) (s : String) → Positive l → (value_of l s == 0) ≡ not (listed l s)
unfolding value_of any
value_of-zero [] s h = refl
value_of-zero ((k, v) ∷ l) s (first, rest) = ground (arith, value_of-zero l s rest)

module _ ⦃p : Platform⦄ where
  -- The empty word is no key of any list.
  looked_up :
      (l : Flist) (s : String)
      → Positive l
      → listed l "" ≡ false
      → not (str_isempty s || p.flist_getval l s == 0) ≡ listed l s
  looked_up l s positive no_empty = elim (Bool-cases (str_isempty s)) [
    | inl empty ↦
        let same = str_equal→eq s "" empty in rw empty (sym (ap (listed l) same ∙ no_empty))
    | inr given ↦
        let value = ap (λ v. v == 0) (p.flist_getval_lem l s) ∙ value_of-zero l s positive in
        ground (arith, given, value)
  ]

  bcaps_list-Positive : Positive bcaps_list
  bcaps_list-Positive = search (p.node_pos) depth 80

  ccaps_list-Positive : Positive ccaps_list
  ccaps_list-Positive = search (p.node_pos) depth 80

  cflags_list-Positive : Positive cflags_list
  cflags_list-Positive = search (p.node_pos) depth 80

  rlimit_list-Positive : Positive rlimit_list
  rlimit_list-Positive = search (p.node_pos) depth 80

  uname_list-Positive : Positive uname_list
  uname_list-Positive = search (p.node_pos) depth 80

  vcd_caps_list-Positive : Positive vcd_caps_list
  vcd_caps_list-Positive = ground arith

  -- A check of a word lets exactly the keys of its flag list pass.
  pub validate_flags_iff :
      (s : String)
      → (validate_vcd_cap s ≡ listed vcd_caps_list s)
        × (validate_bcap s ≡ listed bcaps_list s)
        × (validate_ccap s ≡ listed ccaps_list s)
        × (validate_cflag s ≡ listed cflags_list s)
        × (validate_rlimit s ≡ listed rlimit_list s)
        × (validate_uname s ≡ listed uname_list s)
  unfolding validate_vcd_cap validate_bcap validate_ccap validate_cflag validate_rlimit
      validate_uname any
  validate_flags_iff s = (
    looked_up vcd_caps_list s vcd_caps_list-Positive refl,
    looked_up bcaps_list s bcaps_list-Positive refl,
    looked_up ccaps_list s ccaps_list-Positive refl,
    looked_up cflags_list s cflags_list-Positive refl,
    looked_up rlimit_list s rlimit_list-Positive refl,
    looked_up uname_list s uname_list-Positive refl,
  )
