-- ===== src/Logs.antt =====
-- The log pages of the admin UI (main.go: SyslogBuffer, bufSlogHandler; handlers.go:
-- handleAdminLogsData, handleAdminSystemLogs, handleAdminSystemLogsExport, handleExportAllLogs).
-- The buffer's mutex makes each of its methods one step. A query is a database's rows, in order.
pub mod Buffer
pub mod Export
pub mod Pages
use gateway.Prelude.{
  ℕ, ◌+◌, ◌-◌, ◌*◌, ◌/◌, String, Bool, true, false, not, Option, none, some, List, [], ◌∷◌, ◌++◌,
  map, ltb, leb, if◌then◌else◌, length, take, drop, keep, ◌||◌,
}
use gateway.Text.{Bytes}
use gateway.OpenAi.History.{is_blank, has_prefix}
use gateway.Settings.{IntField, blank, malformed, negative, number}

pub record SysLogEntry : Type 0 where
  pub ts : String
  pub level : String
  pub name : String
  pub msg : Bytes

abbrev pub max_syslog_entries : ℕ
max_syslog_entries = 500

-- (s *SyslogBuffer) Add
unfoldable pub add : List SysLogEntry → SysLogEntry → List SysLogEntry
add buf e = (if leb max_syslog_entries (length buf) then drop 1 buf else buf) ++ e ∷ []

-- A record of slog: its level is a number, with the name that prints it.
pub record Record : Type 0 where
  pub time : String
  pub level : ℕ
  pub level_name : String
  pub message : Bytes

-- What happens to the buffer: a record reaches its handler, or an administrator clears it.
pub data Event : Type 0 where
  logged : Record → Event
  cleared : Event

-- bufSlogHandler.Handle
unfoldable pub handle : List SysLogEntry → Record → List SysLogEntry
handle buf r =
    add buf (record { ts = r.time; level = r.level_name; name = "gateway42"; msg = r.message })

-- The buffer after some events, with the level of its handler: slog calls Handle on what is Enabled.
unfoldable pub after : ℕ → List SysLogEntry → List Event → List SysLogEntry
after level buf [] = buf
after level buf (logged r ∷ es) = after level (if leb level r.level then handle buf r else buf) es
after level buf (cleared ∷ es) = after level [] es

-- maxInt and minInt
unfoldable pub max_int : ℕ → ℕ → ℕ
max_int a b = if ltb b a then a else b

unfoldable pub min_int : ℕ → ℕ → ℕ
min_int a b = if ltb a b then a else b

-- maxInt(1, queryInt(r, "page", 1)): what is not a number is the default, and no less than 1 passes.
unfoldable pub page_param : IntField → ℕ
unfolding max_int
page_param blank = max_int 1 1
page_param malformed = max_int 1 1
page_param negative = 1
page_param (number n) = max_int 1 n

-- The loop that swaps the entries from both ends inwards.
unfoldable pub reversed : {A : Type 0} → List A → List A
reversed [] = []
reversed (x ∷ xs) = reversed xs ++ x ∷ []

-- strings.Contains(s, q)
unfoldable pub contains : Bytes → Bytes → Bool
unfolding has_prefix
contains [] q = has_prefix q []
contains (b ∷ s) q = has_prefix q (b ∷ s) || contains s q

pub record Page (A : Type 0) : Type 0 where
  pub logs : List A
  pub count : ℕ
  pub total : ℕ
  pub page : ℕ
  pub pages : ℕ

-- The answers of the pages: JSON with its status, and the redirect to the login page.
pub data Reply (A : Type 0) : Type 0 where
  unauthorized : Reply A
  to_login : Reply A
  internal_error : Reply A
  shown : Page A → Reply A
  csv : List String → List A → Reply A

-- `to_lower` is strings.ToLower; a query `q` is trimmed and in lower case.
module _ (to_lower : Bytes → Bytes) where
  -- The entries that both handlers show: newest first, and those whose message contains the query.
  unfoldable pub matching : Bytes → List SysLogEntry → List SysLogEntry
  unfolding is_blank reversed
  matching q buf =
      let entries = reversed buf in
      if not (is_blank q) then keep (λ e. contains (to_lower e.msg) q) entries else entries

  unfoldable pub handle_admin_system_logs :
      Bool → Bytes → IntField → List SysLogEntry → Reply SysLogEntry
  unfolding max_int min_int matching page_param
  handle_admin_system_logs admin q field buf =
      let entries = matching q buf in
      let total = length entries in
      let pages = max_int 1 ((total + 9) / 10) in
      let page = min_int (page_param field) pages in
      let start = (page - 1) * 10 in
      let end = min_int (start + 10) total in
      let slice = if ltb start total then take (end - start) (drop start entries) else [] in
      if admin
      then shown
          (record { logs = slice; count = length slice; total = total; page = page; pages = pages })
      else unauthorized

  unfoldable pub handle_admin_system_logs_export :
      Bool → Bytes → List SysLogEntry → Reply SysLogEntry
  unfolding matching
  handle_admin_system_logs_export admin q buf =
      if admin
      then csv ("timestamp" ∷ "level" ∷ "logger" ∷ "message" ∷ []) (matching q buf)
      else to_login

-- handleAdminSystemLogsReset: the buffer that is left, and whether it answers ok.
unfoldable pub handle_admin_system_logs_reset : Bool → List SysLogEntry → List SysLogEntry × Bool
handle_admin_system_logs_reset admin buf = if admin then ([], true) else (buf, false)

-- handleAdminLogsData. The rows are those that match the search, newest first, as the database has
-- them when it counts and when it reads the page; `none` is a failed query.
unfoldable pub handle_admin_logs_data :
    {Row : Type 0} → Bool → IntField → Option (List Row) → Option (List Row) → Reply Row
unfolding max_int min_int page_param
handle_admin_logs_data false field counted rows = unauthorized
handle_admin_logs_data true field none rows = internal_error
handle_admin_logs_data true field (some seen) none = internal_error
handle_admin_logs_data true field (some seen) (some rows) =
    let total = length seen in
    let pages = max_int 1 ((total + 10 - 1) / 10) in
    let page = min_int (page_param field) pages in
    let slice = take 10 (drop ((page - 1) * 10) rows) in
    shown (record { logs = slice; count = length slice; total = total; page = page; pages = pages })
