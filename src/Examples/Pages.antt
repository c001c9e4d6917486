-- ===== src/Examples/Pages.antt =====
-- The admin pages and the logs at concrete inputs (handlers.go, main.go).
use gateway.Prelude.{
  min, ℕ, ◌≢◌, ◌≡◌, refl, String, str_eq, Bool, true, false, ◌&&◌, some, List, [], ◌∷◌, arith, leb,
  if◌then◌else◌,
}
use gateway.Json.{bytes_eq, codes}
use gateway.Users.{User, row_by_id, get_user_by_id, delete_user, delete_row}
use gateway.Login.{fresh, Attempt, LoginState, logged_in, handle_admin_login}
use gateway.Admin.{
  no_flashes, Site, Answers, redirect, among, admins_only, is_admin_session, save_session,
}
use gateway.Admin.Forms.{Library, Password, byte_len, rune_len, some_rune}
use gateway.Admin.Pages.{
  Request, export, delete_page, run, handle, handle_export, handle_delete, handle_toggle,
  handle_change_password, panel,
}
use gateway.Admin.Exports.{Sent, run-exported}
use gateway.Admin.Accounts.{toggle-flips}
use gateway.Admin.Passwords.{admin_of, login-change}
use gateway.Prune.{prune_logs}
use gateway.Prune.Batches.{expired, without_first, prune_logs-without_first}
use gateway.Logs.{
  SysLogEntry, Record, logged, cleared, after, max_syslog_entries, handle_admin_system_logs_export,
}
use gateway.Logs.Buffer.{last, history, after-last}
use gateway.Logs.Pages.{entries_of, pages_of, read_pages, system_page, read_pages-system_logs}

abbrev eve : User
eve = record { id = 1; name = "eve"; api_key = "k1"; status = "active"; rate_limit = 7 }

abbrev old_password : Password
old_password = codes "Secret12"

abbrev new_password : Password
new_password = codes "Abcdefg1"

abbrev toy : Library
toy = record {
  sha256_hex = λ s. s;
  verify_password = λ h p. str_eq h (if bytes_eq p old_password then "old" else "new");
  hash_password = λ salt p. if bytes_eq p old_password then "old" else "new";
  is_upper = λ r. leb 65 r && leb r 90;
  is_lower = λ r. leb 97 r && leb r 122;
  is_digit = λ r. leb 48 r && leb r 57;
  limit_message = λ uid rl. "changed";
}

abbrev site : Bool → Site ℕ
site admin = record {
  store = record { rows = eve ∷ []; cache = []; dropped = [] };
  password_hash = some "old";
  logs = record { id = 5; user_id = 1; model = "m"; prompt = "p"; response = "r"; ts = "t" } ∷ [];
  request_logs = 9 ∷ [];
  resets = 0;
  cookie = record { admin = admin; exported = []; flashes = no_flashes };
}

abbrev fine : Answers
fine = record {
  now = 3;
  form_ok = true;
  reads = true;
  writes = true;
  save_ok = true;
  db_error = "";
}

abbrev parting : List (Request × Answers)
parting = (export 1, fine) ∷ (delete_page 1, fine) ∷ []

run-exported_example : Sent toy 1 10 parting (site true)
unfolding row_by_id among run handle handle_export handle_delete admins_only is_admin_session
    save_session delete_user delete_row
run-exported_example = run-exported toy 1 10 parting (site true) eve refl refl refl

toggle-flips_example :
    let s' = (handle_toggle toy 1 fine (site true)).0.store in
    let u' : User = record eve { status = "disabled" } in
    ((handle_toggle toy 1 fine (site true)).1 ≡ redirect panel)
    × (row_by_id 1 s'.rows ≡ some u')
    × ((get_user_by_id 1 8 true s').1 ≡ some u')
    × ((m : ℕ) (v : User)
        → m ≢ 1
        → row_by_id m (site true).store.rows ≡ some v
        → row_by_id m s'.rows ≡ some v)
unfolding row_by_id
toggle-flips_example = toggle-flips toy 1 8 fine (site true) eve refl refl refl tt refl

abbrev again : Attempt Password
again = record { form_ok = true; now = 9; later = 9; password = new_password; save_ok = true }

abbrev door : LoginState
door = record { guard = fresh; admin = false; derived = 0 }

login-change_example :
    let s' =
      (handle_change_password toy old_password new_password new_password 4 fine (site true)).0 in
    ((handle_admin_login toy.verify_password door (admin_of s'.password_hash) again).1 ≡ logged_in)
    × (s'.cookie.admin ≡ false)
unfolding bytes_eq byte_len rune_len some_rune
login-change_example =
    login-change toy old_password new_password new_password 4 fine (site true) "old" door again refl
      refl refl refl refl refl refl (omega arith, refl, refl, refl) refl refl (omega arith)

abbrev info : String → Record
info t = record { time = t; level = 4; level_name = "INFO"; message = codes "ready" }

after-last_example :
    after 4 (last max_syslog_entries []) (logged (info "a") ∷ cleared ∷ logged (info "b") ∷ [])
    ≡ last max_syslog_entries (history 4 [] (logged (info "a") ∷ cleared ∷ logged (info "b") ∷ []))
after-last_example = after-last 4 (logged (info "a") ∷ cleared ∷ logged (info "b") ∷ []) []

abbrev entry : SysLogEntry
entry = record { ts = "b"; level = "INFO"; name = "gateway42"; msg = codes "ready" }

read_pages-system_logs_example :
    entries_of (handle_admin_system_logs_export (λ s. s) true (codes "ad") (entry ∷ []))
    ≡ read_pages
        (system_page (λ s. s) (codes "ad") (entry ∷ []))
        0
        (pages_of (system_page (λ s. s) (codes "ad") (entry ∷ []) 1))
read_pages-system_logs_example = read_pages-system_logs (λ s. s) (codes "ad") (entry ∷ [])

prune_logs-without_first_example :
    prune_logs (λ n. true) (λ n. true) 30 5 (3 ∷ 4 ∷ 7 ∷ []) (9 ∷ []) ≡ (
      without_first (min 100_000 (expired 5 (3 ∷ 4 ∷ 7 ∷ []))) (3 ∷ 4 ∷ 7 ∷ []) 0,
      without_first (min 100_000 (expired 5 (9 ∷ []))) (9 ∷ []) 0,
    )
prune_logs-without_first_example =
    prune_logs-without_first (λ n. true) (λ n. true) 30 5 (3 ∷ 4 ∷ 7 ∷ []) (9 ∷ []) (λ j. refl)
      (λ j. refl) (omega arith)
