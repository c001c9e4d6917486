-- ===== src/Logs/Pages.antt =====
-- Paging: what the pages of a list show together (handlers.go: handleAdminSystemLogs,
-- handleAdminSystemLogsExport, handleAdminLogsData).
use gateway.Prelude.{
  ℕ, zero, suc, ◌+◌, ◌-◌, ◌*◌, ◌/◌, ◌≤◌, ◌<◌, ◌≡◌, refl, sym, ap, ◌∙◌, true, some, List, [], ◌∷◌,
  ◌++◌, ltb, if◌then◌else◌, length, take, drop, arith, take_le_length, dec_lt, lt→ltb, ge→ltb,
}
use gateway.Text.{Bytes}
use gateway.Settings.{number}
use gateway.Logs.{
  SysLogEntry, max_int, min_int, page_param, matching, Reply, shown, csv, unauthorized, to_login,
  internal_error, handle_admin_system_logs, handle_admin_system_logs_export, handle_admin_logs_data,
}
use gateway.Logs.Buffer.{length-drop}

module _ {A : Type 0} where
  -- The entries that an answer shows, and how many pages it announces.
  abbrev pub entries_of : Reply A → List A
  entries_of (shown p) = p.logs
  entries_of unauthorized = []
  entries_of to_login = []
  entries_of internal_error = []
  entries_of (csv header rows) = rows

  abbrev pub pages_of : Reply A → ℕ
  pages_of (shown p) = p.pages
  pages_of unauthorized = 0
  pages_of to_login = 0
  pages_of internal_error = 0
  pages_of (csv header rows) = 0

  -- The entries of `n` pages from the one after `j` on, put together.
  abbrev pub read_pages : (ℕ → Reply A) → ℕ → ℕ → List A
  read_pages page j zero = []
  read_pages page j (suc n) = entries_of (page (suc j)) ++ read_pages page (suc j) n

  drop_nil : (n : ℕ) → drop {A = A} n [] ≡ []
  drop_nil zero = refl
  drop_nil (suc n) = refl

  take_nil : (n : ℕ) → take {A = A} n [] ≡ []
  take_nil zero = refl
  take_nil (suc n) = refl

  take-add : (m n : ℕ) (xs : List A) → take m xs ++ take n (drop m xs) ≡ take (m + n) xs
  take-add zero n xs = ap (λ k. take k xs) (omega arith)
  take-add (suc m) n [] = take_nil n ∙ sym (take_nil (suc m + n))
  take-add (suc m) n (x ∷ xs) =
      let here : suc (m + n) ≡ suc m + n = omega arith in
      ap (λ t. x ∷ t) (take-add m n xs) ∙ ap (λ k. take k (x ∷ xs)) here

  pub drop-add : (m n : ℕ) (xs : List A) → drop m (drop n xs) ≡ drop (n + m) xs
  drop-add m zero xs = ap (λ k. drop k xs) (omega arith)
  drop-add m (suc n) [] = drop_nil m ∙ sym (drop_nil (suc n + m))
  drop-add m (suc n) (x ∷ xs) =
      let here : suc (n + m) ≡ suc n + m = omega arith in
      drop-add m n xs ∙ ap (λ k. drop k (x ∷ xs)) here

  -- Pages of ten that follow each other.
  read_pages-take :
      (xs : List A) (page : ℕ → Reply A) (n j : ℕ)
      → ((k : ℕ) → k < j + n → entries_of (page (suc k)) ≡ take 10 (drop (k * 10) xs))
      → read_pages page j n ≡ take (n * 10) (drop (j * 10) xs)
  read_pages-take xs page zero j tens = refl
  read_pages-take xs page (suc n) j tens =
      let rest = read_pages-take xs page n (suc j) (λ k h. tens k (omega arith)) in
      let next : drop 10 (drop (j * 10) xs) ≡ drop (suc j * 10) xs =
        drop-add 10 (j * 10) xs ∙ ap (λ k. drop k xs) (omega arith) in
      rw (tens j (omega arith), rest, ← next)
        (take-add 10 (n * 10) (drop (j * 10) xs)
          ∙ ap (λ k. take k (drop (j * 10) xs)) (omega arith))

  read_pages-all :
      (xs : List A) (page : ℕ → Reply A) (n : ℕ)
      → ((k : ℕ) → k < n → entries_of (page (suc k)) ≡ take 10 (drop (k * 10) xs))
      → length xs ≤ n * 10
      → read_pages page 0 n ≡ xs
  read_pages-all xs page n tens h =
      read_pages-take xs page n 0 (λ k below. tens k (omega arith)) ∙ take_le_length (n * 10) xs h

  -- Ten entries from a bound within the list, where fewer are left as well.
  cut_short :
      (start : ℕ) (xs : List A)
      → start < length xs
      → take (min_int (start + 10) (length xs) - start) (drop start xs) ≡ take 10 (drop start xs)
  unfolding min_int
  cut_short start xs h = elim (dec_lt (start + 10) (length xs)) [
    | yes more ↦
        let ten : start + 10 - start ≡ 10 = omega arith in
        rw (lt→ltb (start + 10) (length xs) more) (ap (λ k. take k (drop start xs)) ten)
    | no less ↦
        let left = length-drop start xs in
        rw (ge→ltb (start + 10) (length xs) (omega arith)) (
          take_le_length (length xs - start) (drop start xs) (omega (arith, left))
          ∙ sym (take_le_length 10 (drop start xs) (omega (arith, left))))
  ]

  slice-take :
      (start : ℕ) (xs : List A)
      → (if ltb start (length xs)
          then take (min_int (start + 10) (length xs) - start) (drop start xs)
          else [])
        ≡ take 10 (drop start xs)
  slice-take start xs = elim (dec_lt start (length xs)) [
    | yes inside ↦ rw (lt→ltb start (length xs) inside) (cut_short start xs inside)
    | no outside ↦
        let left = length-drop start xs in
        let nothing : drop start xs ≡ [] = empty (drop start xs) (omega (arith, left)) in
        rw (ge→ltb start (length xs) (omega arith), nothing) refl
  ]
    where
      empty : (ys : List A) → length ys ≡ 0 → ys ≡ []
      empty [] e = refl
      empty (y ∷ ys) e = absurd (omega arith)

-- The page numbers that the handlers settle on, and that there are enough of them.
page_start : (k pages : ℕ) → k < pages → min_int (max_int 1 (suc k)) pages - 1 ≡ k
unfolding min_int max_int
page_start k pages h = ground arith

enough : (total : ℕ) → total ≤ max_int 1 ((total + 9) / 10) * 10
unfolding max_int
enough total = ground arith

enough_rows : (total : ℕ) → total ≤ max_int 1 ((total + 10 - 1) / 10) * 10
unfolding max_int
enough_rows total = ground arith

module _ (to_lower : Bytes → Bytes) where
  -- The pages of a query, by their numbers.
  abbrev pub system_page : Bytes → List SysLogEntry → ℕ → Reply SysLogEntry
  system_page q buf k = handle_admin_system_logs to_lower true q (number k) buf

  -- A page that exists holds its ten entries.
  system_page-take :
      (q : Bytes) (buf : List SysLogEntry) (k : ℕ)
      → k < pages_of (system_page q buf 1)
      → entries_of (system_page q buf (suc k)) ≡ take 10 (drop (k * 10) (matching to_lower q buf))
  unfolding handle_admin_system_logs page_param
  system_page-take q buf k h =
      let xs = matching to_lower q buf in
      slice-take _ xs ∙ ap (λ n. take 10 (drop (n * 10) xs)) (page_start k _ h)

  -- Whoever reads as many pages as the first one announces has read the entries of the CSV export of
  -- the same query, each once and in the same order.
  pub read_pages-system_logs :
      (q : Bytes) (buf : List SysLogEntry)
      → entries_of (handle_admin_system_logs_export to_lower true q buf)
        ≡ read_pages (system_page q buf) 0 (pages_of (system_page q buf 1))
  unfolding handle_admin_system_logs handle_admin_system_logs_export
  read_pages-system_logs q buf =
      let xs = matching to_lower q buf in
      sym (
        read_pages-all xs (system_page q buf) (max_int 1 ((length xs + 9) / 10))
          (λ k h. system_page-take q buf k h) (enough (length xs)))

-- The pages of the request log, by their numbers.
abbrev pub logs_page : {Row : Type 0} → List Row → ℕ → Reply Row
logs_page rows k = handle_admin_logs_data true (number k) (some rows) (some rows)

-- The pages of the request log, as many as the first one announces, read from rows that do not
-- change meanwhile, are together those rows.
pub read_pages-logs_data :
    {Row : Type 0} (rows : List Row)
    → read_pages (logs_page rows) 0 (pages_of (logs_page rows 1)) ≡ rows
unfolding handle_admin_logs_data page_param
read_pages-logs_data rows =
    read_pages-all rows (logs_page rows) (max_int 1 ((length rows + 10 - 1) / 10))
      (λ k h. ap (λ n. take 10 (drop (n * 10) rows)) (page_start k _ h)) (enough_rows (length rows))
