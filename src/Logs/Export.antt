-- ===== src/Logs/Export.antt =====
-- The CSV export of the request log (handlers.go: handleExportAllLogs). A file is its lines, and a
-- line its fields: encoding/csv quotes them.
use gateway.Prelude.{
  ℕ, String, ◌≡◌, refl, Bool, true, false, Option, none, some, List, [], ◌∷◌, map,
}

-- RequestLogRow, with the columns' names. Integers are natural numbers.
pub record RequestLogRow : Type 0 where
  pub id : ℕ
  pub ts : String
  pub method : String
  pub path : String
  pub client_ip : String
  pub user_name : String
  pub status_code : ℕ
  pub request_id : String
  pub model_requested : String
  pub model_served : String
  pub engine_name : String
  pub engine_type : String
  pub streamed : ℕ
  pub ttft_ms : ℕ
  pub duration_ms : ℕ
  pub in_tokens : ℕ
  pub out_tokens : ℕ
  pub stop_reason : String
  pub outcome : String
  pub upstream_error : String
  pub user_agent : String

pub data Export : Type 0 where
  to_login : Export
  internal_error : Export
  csv : List (List String) → Export

unfoldable pub header : List String
header =
    "id" ∷ "timestamp" ∷ "method" ∷ "path" ∷ "client_ip" ∷ "client_name" ∷ "status_code"
    ∷ "request_id" ∷ "model_requested" ∷ "model_served" ∷ "engine_name" ∷ "engine_type" ∷ "streamed"
    ∷ "ttft_ms" ∷ "duration_ms" ∷ "in_tokens" ∷ "out_tokens" ∷ "stop_reason" ∷ "outcome"
    ∷ "upstream_error" ∷ "user_agent" ∷ []

-- `itoa` is strconv.Itoa.
module _ (itoa : ℕ → String) where
  unfoldable pub line_of : RequestLogRow → List String
  line_of row =
      itoa row.id
      ∷ row.ts
      ∷ row.method
      ∷ row.path
      ∷ row.client_ip
      ∷ row.user_name
      ∷ itoa row.status_code
      ∷ row.request_id
      ∷ row.model_requested
      ∷ row.model_served
      ∷ row.engine_name
      ∷ row.engine_type
      ∷ itoa row.streamed
      ∷ itoa row.ttft_ms
      ∷ itoa row.duration_ms
      ∷ itoa row.in_tokens
      ∷ itoa row.out_tokens
      ∷ row.stop_reason
      ∷ row.outcome
      ∷ row.upstream_error
      ∷ row.user_agent
      ∷ []

  -- The loop over the rows: one that cannot be scanned (`none`) ends the file.
  unfoldable pub lines_of : List (Option RequestLogRow) → List (List String)
  unfolding line_of
  lines_of [] = []
  lines_of (none ∷ rest) = []
  lines_of (some row ∷ rest) = line_of row ∷ lines_of rest

  -- `none` is a query that fails before the first row.
  unfoldable pub handle_export_all_logs : Bool → Option (List (Option RequestLogRow)) → Export
  unfolding header lines_of
  handle_export_all_logs false rows = to_login
  handle_export_all_logs true none = internal_error
  handle_export_all_logs true (some rows) = csv (header ∷ lines_of rows)

-- The rows that a file's lines hold, for a reader with `atoi`; a line of another width is skipped.
module _ (atoi : String → ℕ) where
  abbrev pub row_of : List String → Option RequestLogRow
  row_of
        (c0 ∷ c1 ∷ c2 ∷ c3 ∷ c4 ∷ c5 ∷ c6 ∷ c7 ∷ c8 ∷ c9 ∷ c10 ∷ c11 ∷ c12 ∷ c13 ∷ c14 ∷ c15 ∷ c16
          ∷ c17 ∷ c18 ∷ c19 ∷ c20 ∷ []) =
      some (record {
        id = atoi c0;
        ts = c1;
        method = c2;
        path = c3;
        client_ip = c4;
        user_name = c5;
        status_code = atoi c6;
        request_id = c7;
        model_requested = c8;
        model_served = c9;
        engine_name = c10;
        engine_type = c11;
        streamed = atoi c12;
        ttft_ms = atoi c13;
        duration_ms = atoi c14;
        in_tokens = atoi c15;
        out_tokens = atoi c16;
        stop_reason = c17;
        outcome = c18;
        upstream_error = c19;
        user_agent = c20;
      })
  row_of _ = none

-- The rows that a query gives before the first one that cannot be scanned.
abbrev pub scanned : List (Option RequestLogRow) → List (Option RequestLogRow)
scanned [] = []
scanned (none ∷ rest) = []
scanned (some row ∷ rest) = some row ∷ scanned rest

-- A reader of the export gets back, in every column, the rows up to the first one that cannot be
-- scanned, if the reader's numbers undo strconv.Itoa.
pub row_of-lines_of :
    (itoa : ℕ → String) (atoi : String → ℕ) (rows : List (Option RequestLogRow))
    → ((n : ℕ) → atoi (itoa n) ≡ n)
    → map (row_of atoi) (lines_of itoa rows) ≡ scanned rows
unfolding lines_of line_of
row_of-lines_of itoa atoi [] back = refl
row_of-lines_of itoa atoi (none ∷ rest) back = refl
row_of-lines_of itoa atoi (some r ∷ rest) back = λ i.
    some (record r {
      id = back r.id i;
      status_code = back r.status_code i;
      streamed = back r.streamed i;
      ttft_ms = back r.ttft_ms i;
      duration_ms = back r.duration_ms i;
      in_tokens = back r.in_tokens i;
      out_tokens = back r.out_tokens i;
    })
    ∷ row_of-lines_of itoa atoi rest back i
