-- ===== src/Vxpasswd.antt =====
-- src/vxpasswd/vxpasswd.c: the program that sets the password of a user in the database file.
pub mod Login
use vcd.Base.{
  not, ◌||◌, String, [], ◌∷◌, Option, none, some, if◌then◌else◌, ltb, len, str_equal, any,
}
use vcd.Platform.{Platform}
use vcd.Sql.{Contents, text, Stmt, update, holds}
use vcd.Validate.{str_isempty}
use vcd.Vshelper.{Status, exit_success, exit_failure}

-- The argument, or the lines that are typed at the two prompts if they are the same.
abbrev pub password_of : Option String → String → String → Option String
password_of (some password) first again = some password
password_of none first again = if str_equal first again then some first else none

module _ ⦃p : Platform⦄ where
  abbrev pub new_password : String → String → Stmt
  new_password username password =
      update "user" "password" (text (p.whirlpool_digest password)) (("name", text username) ∷ [])

  abbrev changed : Contents → String → Option Contents → Status × Contents
  changed db username none = (exit_failure, db)
  changed db username (some d) = (
    if any (holds (("name", text username) ∷ [])) (db "user") then exit_success else exit_failure,
    d,
  )

  abbrev store_password : Contents → String → Option String → Status × Contents
  store_password db username none = (exit_failure, db)
  store_password db username (some password) =
      if ltb (len password) 8
      then (exit_failure, db)
      else changed db username (p.exec (new_password username password ∷ []) db)

  -- The arguments, the two typed lines, and the database of the file.
  unfoldable pub vxpasswd :
      String → String → Option String → String → String → Contents → Status × Contents
  unfolding any holds
  vxpasswd vxdbfile username given first again db =
      if str_isempty vxdbfile || (str_isempty username || not (p.str_isalnum username))
      then (exit_failure, db)
      else store_password db username (password_of given first again)
