-- ===== src/Methods/Report/Templates.antt =====
-- src/vcd/methods/vx/vx_templates.c: the templates that vx.create can use.
use vcd.Base.{
  Bool, not, ◌&&◌, ◌||◌, String, List, [], ◌∷◌, map, keep, Option, none, some, if◌then◌else◌,
  str_equal, str_cat,
}
use vcd.Platform.{Platform}
use vcd.Kernel.{Syscall, Parsed, unreadable, malformed, parsed, file}
use vcd.Lists.VcdCap
use vcd.Validate.{str_isempty}
use vcd.Call.{M, pure, raise, looks, ◌>>=◌, ◌>>◌, str, Params, Request, get_str, Reply, structs}
use vcd.Call.Sys.{sys, must}
use vcd.Methods.{mesys, method_init}

-- A description that is not empty.
abbrev pub described : Option String → String
described none = "(none)"
described (some d) = if str_isempty d then "(none)" else d

abbrev pub description_of : Parsed → String
description_of unreadable = "(parse error in configuration)"
description_of malformed = "(parse error in configuration)"
description_of (parsed c) = described c.description

-- The entry is meant by a request for this name, where an empty name means all.
abbrev pub is_meant : String → String → Bool
is_meant name entry = not (
    str_equal entry "."
    || str_equal entry ".."
    || not (str_isempty name) && not (str_equal name entry))

module _ ⦃p : Platform⦄ where
  unfoldable pub template_description : List Syscall → String → String → String
  template_description h tbasedir name =
      let tconf = str_cat tbasedir (str_cat "/" (str_cat name ".conf")) in
      if not (p.isfile h tconf) then "(none)" else description_of (p.cfg_parse tconf)

  abbrev pub template_entry : List Syscall → String → String → Params
  template_entry h tbasedir name =
      ("name", str name) ∷ ("description", str (template_description h tbasedir name)) ∷ []

  abbrev pub opened : Option (List String) → M (List String)
  opened none = raise mesys
  opened (some names) = pure names

  -- The loop over readdir.
  unfoldable pub templates : List Syscall → String → String → List String → List Params
  unfolding keep template_description
  templates h tbasedir name names =
      map (template_entry h tbasedir) (keep (λ e. is_meant name e && p.isdir h e) names)

  -- The daemon works in the directory of the templates meanwhile.
  unfoldable pub m_vx_templates : Request → M Reply
  unfolding templates
  m_vx_templates request = do
    params ← method_init request VcdCap.create 0
    name ← get_str "name" params
    must (file "chdir" p.templatedir)
    entries ← looks (λ h. p.readdir h ".")
    names ← opened entries
    found ← looks (λ h. templates h p.templatedir name names)
    sys (file "fchdir" ".")
    pure (structs found)
