-- ===== src/Admin/Forms.antt =====
-- What the admin pages check in their forms (auth.go: validateName, validatePassword; handlers.go).
-- Hashes, digests and the Unicode classes are parameters; a password is the list of its runes.
use gateway.Prelude.{
  ℕ, ◌+◌, String, str_eq, Bool, false, not, ◌&&◌, ◌||◌, Option, none, some, List, [], ◌∷◌, ltb, leb,
  if◌then◌else◌,
}
use gateway.Settings.{IntField, blank, malformed, negative, number}
use gateway.Users.{active, disabled}

abbrev pub Password : Type 0
Password = List ℕ

-- The bytes of a rune in UTF-8, and of a text.
unfoldable pub rune_len : ℕ → ℕ
rune_len r = if ltb r 128 then 1 else if ltb r 2048 then 2 else if ltb r 65536 then 3 else 4

unfoldable pub byte_len : Password → ℕ
unfolding rune_len
byte_len [] = 0
byte_len (r ∷ rs) = rune_len r + byte_len rs

-- strings.IndexFunc(s, f) >= 0
unfoldable pub some_rune : (ℕ → Bool) → Password → Bool
some_rune f [] = false
some_rune f (r ∷ rs) = f r || some_rune f rs

-- validateName, of a name with that many bytes after TrimSpace.
unfoldable pub validate_name : ℕ → Bool
validate_name n = leb 1 n && leb n 100

-- The limit that handleUpdateRateLimit makes of a form value.
unfoldable pub clamp_limit : IntField → ℕ
clamp_limit blank = 1
clamp_limit malformed = 1
clamp_limit negative = 1
clamp_limit (number n) = let rl = if ltb n 1 then 1 else n in if ltb 1000 rl then 1000 else rl

-- The `switch` on the form value "next".
unfoldable pub reset_target : String → String
reset_target next =
    if str_eq next "admin_logs"
    then "/admin/logs"
    else if str_eq next "settings_page"
    then "/admin/settings-page"
    else "/admin/panel"

-- What the code calls: sha256Hex, verifyPassword, hashPassword with the salt that it draws, and
-- unicode.IsUpper, IsLower and IsDigit, and fmt.Sprintf for the flash on a changed limit.
pub record Library : Type 0 where
  pub sha256_hex : String → String
  pub verify_password : String → Password → Bool
  pub hash_password : ℕ → Password → String
  pub is_upper : ℕ → Bool
  pub is_lower : ℕ → Bool
  pub is_digit : ℕ → Bool
  pub limit_message : ℕ → ℕ → String

-- The status that handleToggle gives a user.
unfoldable pub toggled : String → String
toggled status = if str_eq status active then disabled else active

module _ (c : Library) where
  -- validatePassword: `none` is a valid password, `some` the message for an invalid one.
  unfoldable pub validate_password : Password → Option String
  unfolding byte_len some_rune
  validate_password p =
      if ltb (byte_len p) 8
      then some "Password must be at least 8 characters"
      else if not (some_rune c.is_upper p)
      then some "Password must contain at least one uppercase letter"
      else if not (some_rune c.is_lower p)
      then some "Password must contain at least one lowercase letter"
      else if not (some_rune c.is_digit p)
      then some "Password must contain at least one digit"
      else none
