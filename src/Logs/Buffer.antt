-- ===== src/Logs/Buffer.antt =====
-- SyslogBuffer: what it holds after any events.
use gateway.Prelude.{
  gt→leb, le→leb, dec_le, ℕ, zero, suc, ◌-◌, ◌≤◌, ◌<◌, ◌≡◌, refl, sym, ap, ◌∙◌, List, [], ◌∷◌, ◌++◌,
  leb, if◌then◌else◌, length, drop, arith, length-append, Bool-cases, inl, inr,
}
use gateway.Logs.{
  SysLogEntry, Record, Event, logged, cleared, add, handle, after, max_syslog_entries,
}

-- The entry that a record makes.
unfoldable pub entry_of : Record → SysLogEntry
entry_of r = record { ts = r.time; level = r.level_name; name = "gateway42"; msg = r.message }

-- Every entry logged since the buffer was last cleared, with those before the events.
unfoldable pub history : ℕ → List SysLogEntry → List Event → List SysLogEntry
unfolding entry_of
history level old [] = old
history level old (logged r ∷ es) =
    history level (if leb level r.level then old ++ entry_of r ∷ [] else old) es
history level old (cleared ∷ es) = history level [] es

-- The last `n` entries.
unfoldable pub last : {A : Type 0} → ℕ → List A → List A
last n xs = drop (length xs - n) xs

drop-append :
    {A : Type 0} (n : ℕ) (xs ys : List A) → n ≤ length xs → drop n (xs ++ ys) ≡ drop n xs ++ ys
drop-append zero xs ys h = refl
drop-append (suc n) [] ys h = elim h [ ]
drop-append (suc n) (x ∷ xs) ys h = drop-append n xs ys (omega arith)

drop-drop : {A : Type 0} (n : ℕ) (xs : List A) → drop 1 (drop n xs) ≡ drop (suc n) xs
drop-drop zero [] = refl
drop-drop zero (x ∷ xs) = refl
drop-drop (suc n) [] = refl
drop-drop (suc n) (x ∷ xs) = drop-drop n xs

pub length-drop : {A : Type 0} (n : ℕ) (xs : List A) → length (drop n xs) ≡ length xs - n
length-drop zero xs = omega arith
length-drop (suc n) [] = omega arith
length-drop (suc n) (x ∷ xs) = omega (arith, length-drop n xs)

-- An entry more than `max_syslog_entries` drives the oldest one out.
full_add :
    (old : List SysLogEntry) (e : SysLogEntry)
    → max_syslog_entries ≤ length old
    → add (last max_syslog_entries old) e ≡ last max_syslog_entries (old ++ e ∷ [])
unfolding add last
full_add old e full =
    let n = length old - max_syslog_entries in
    let held : max_syslog_entries ≤ length (drop n old) = omega (arith, length-drop n old) in
    let here : length (old ++ e ∷ []) - max_syslog_entries ≡ suc n =
      omega (arith, length-append old (e ∷ [])) in
    rw (le→leb max_syslog_entries (length (drop n old)) held, here)
      (ap (λ xs. xs ++ e ∷ []) (drop-drop n old)
        ∙ sym (drop-append (suc n) old (e ∷ []) (omega arith)))

early_add :
    (old : List SysLogEntry) (e : SysLogEntry)
    → length old < max_syslog_entries
    → add (last max_syslog_entries old) e ≡ last max_syslog_entries (old ++ e ∷ [])
unfolding add last
early_add old e early =
    let none_over : length old - max_syslog_entries ≡ 0 = omega arith in
    let here : length (old ++ e ∷ []) - max_syslog_entries ≡ 0 =
      omega (arith, length-append old (e ∷ [])) in
    rw (none_over, here) (ap (λ b. (if b then drop 1 old else old) ++ e ∷ []) (gt→leb _ _ early))

add-last :
    (old : List SysLogEntry) (e : SysLogEntry)
    → add (last max_syslog_entries old) e ≡ last max_syslog_entries (old ++ e ∷ [])
add-last old e = elim (dec_le max_syslog_entries (length old)) [
  | yes full ↦ full_add old e full
  | no early ↦ early_add old e (omega arith)
]

-- The buffer holds the newest 500 entries, in order, of all those that the level lets through since
-- the last time it was cleared.
pub after-last :
    (level : ℕ) (es : List Event) (old : List SysLogEntry)
    → after level (last max_syslog_entries old) es ≡ last max_syslog_entries (history level old es)
unfolding after history last
after-last level [] old = refl
after-last level (cleared ∷ es) old = after-last level es []
after-last level (logged r ∷ es) old = elim (Bool-cases (leb level r.level)) [
  | inl through ↦ rw through (ap (λ b. after level b es) (kept r) ∙ after-last level es _)
  | inr below ↦ rw below (after-last level es old)
]
  where
    kept :
        (r : Record)
        → handle (last max_syslog_entries old) r ≡ last max_syslog_entries (old ++ entry_of r ∷ [])
    kept r = unfold handle entry_of in add-last old (entry_of r)
