-- ===== src/Admin.antt =====
-- The admin pages that change something (handlers.go: handleLogout, handleChangePassword,
-- handleRegister, handleToggle, handleAdminResetKey, handleUpdateRateLimit, handleExport, handleDelete,
-- handleResetSystem), with the session and the flashes (main.go: getSession, isAdminSession, addFlash,
-- consumeFlashes; handlers.go: parseAdminForm, saveSession). The session that a request works on is
-- the one that the cookie held; only a save gives the browser another cookie.
pub mod Forms
pub mod Pages
pub mod Guarded
pub mod Invariants
pub mod Exports
pub mod Accounts
pub mod Passwords
use gateway.Prelude.{
  ℕ, ◌+◌, String, Bool, true, false, not, ◌&&◌, ◌||◌, Option, none, some, List, [], ◌∷◌, ◌++◌, ltb,
  leb, ◌==◌, if◌then◌else◌, keep,
}
use gateway.Users.{Store}

pub record FlashMsg : Type 0 where
  pub category : String
  pub message : String

-- The flashes in a session: nothing, text that does not decode, or messages as JSON.
pub data Queue : Type 0 where
  no_flashes : Queue
  unreadable : Queue
  queued : List FlashMsg → Queue

-- sess.Values: "admin", the users with a true "exported_%d", and "flashes".
pub record Session : Type 0 where
  pub admin : Bool
  pub exported : List ℕ
  pub flashes : Queue

unfoldable pub among : ℕ → List ℕ → Bool
among n [] = false
among n (m ∷ ms) = m == n || among n ms

unfoldable pub is_admin_session : Session → Bool
is_admin_session sess = sess.admin

-- json.Unmarshal into a nil slice, which stays nil where there is nothing to read.
unfoldable pub read_flashes : Queue → List FlashMsg
read_flashes no_flashes = []
read_flashes unreadable = []
read_flashes (queued fs) = fs

-- addFlash, up to its save.
unfoldable pub add_flash : String → String → Session → Session
unfolding read_flashes
add_flash category message sess = record sess {
  flashes =
      queued (read_flashes sess.flashes ++ record { category = category; message = message } ∷ []);
}

-- consumeFlashes: the flashes to show, and the session to save where there was something to read.
unfoldable pub consume_flashes : Session → List FlashMsg × Option Session
unfolding read_flashes
consume_flashes sess = elim sess.flashes [
  | no_flashes ↦ ([], none)
  | unreadable ↦ ([], some (record sess { flashes = no_flashes }))
  | queued fs ↦ (fs, some (record sess { flashes = no_flashes }))
]

-- UserLogRow, with the user whose row it is.
pub record LogRow : Type 0 where
  pub id : ℕ
  pub user_id : ℕ
  pub model : String
  pub prompt : String
  pub response : String
  pub ts : String

-- getUserLogs, when the query succeeds.
unfoldable pub get_user_logs : ℕ → List LogRow → List LogRow
get_user_logs uid logs = keep (λ l. l.user_id == uid) logs

-- What the handlers share: the users with their cache, the administrator's row, the two log tables,
-- how often all limiters have been dropped, and the browser's cookie.
pub record Site (RequestLog : Type 0) : Type 0 where
  pub store : Store
  pub password_hash : Option String
  pub logs : List LogRow
  pub request_logs : List RequestLog
  pub resets : ℕ
  pub cookie : Session

-- What the environment answers in one request: the clock, whether the form parses, whether the
-- database reads and writes, whether the cookie can be saved, and the text of a database error.
pub record Answers : Type 0 where
  pub now : ℕ
  pub form_ok : Bool
  pub reads : Bool
  pub writes : Bool
  pub save_ok : Bool
  pub db_error : String

-- What the browser is sent.
pub data Reply : Type 0 where
  redirect : String → Reply
  error : ℕ → Reply
  key_page : String → String → String → Reply
  csv : List LogRow → Reply

abbrev pub malformed_form : String
malformed_form = "Could not read the submitted form. Please try again."

module _ {RequestLog : Type 0} where
  -- saveSession
  unfoldable pub save_session : Answers → Session → Site RequestLog → Site RequestLog
  save_session a sess s = if a.save_ok then record s { cookie = sess } else s

  -- addFlash and the redirect after it.
  unfoldable pub flash_to :
      Answers → String → String → String → Site RequestLog → Site RequestLog × Reply
  unfolding save_session add_flash
  flash_to a category message back s =
      (save_session a (add_flash category message s.cookie) s, redirect back)

  -- parseAdminForm, with the rest of the handler.
  unfoldable pub parse_admin_form :
      Answers → String → Site RequestLog → Site RequestLog × Reply → Site RequestLog × Reply
  parse_admin_form a back s rest =
      if a.form_ok then rest else flash_to a "error" malformed_form back s

  -- The guard `!isAdminSession(r)` of a page, with the rest of the handler.
  unfoldable pub admins_only : Site RequestLog → Site RequestLog × Reply → Site RequestLog × Reply
  unfolding is_admin_session
  admins_only s rest = if is_admin_session s.cookie then rest else (s, redirect "/")
