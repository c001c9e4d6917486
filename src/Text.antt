-- ===== src/Text.antt =====
-- Byte strings and their truncation: truncateInput (auth.go), truncateTo (request_detail.go) and
-- the capped buffer streamAudit (api_handlers.go). A Go string is the list of its bytes.
pub mod Runes
pub mod Cut
pub mod Audit
use gateway.Prelude.{
  ℕ, zero, suc, ◌-◌, ◌/◌, Bool, true, false, not, ◌||◌, List, [], ◌∷◌, ◌++◌, leb, ◌==◌,
  if◌then◌else◌, length, take,
}

abbrev pub Bytes : Type 0
Bytes = List ℕ

-- utf8.RuneStart: a continuation byte has the top bits 10.
unfoldable pub rune_start : ℕ → Bool
rune_start b = not (b / 64 == 2)

-- utf8.RuneStart(s[i]); the callers stay within the string.
unfoldable pub start_at : Bytes → ℕ → Bool
start_at [] i = true
start_at (b ∷ s) zero = rune_start b
start_at (b ∷ s) (suc i) = start_at s i

-- `for n > 0 && !utf8.RuneStart(s[n]) { n-- }`
unfoldable pub back_off : Bytes → ℕ → ℕ
back_off s zero = zero
back_off s (suc n) = if start_at s (suc n) then suc n else back_off s n

unfoldable pub truncate_to : Bytes → ℕ → Bytes
truncate_to s n = if leb (length s) n then s else take (back_off s n) s

-- truncateInput, with cfg.MaxMsgLen as its first argument.
unfoldable pub truncate_input : ℕ → Bytes → Bytes
truncate_input max_msg_len text =
    if leb (length text) max_msg_len then text else take (back_off text max_msg_len) text

pub record StreamAudit : Type 0 where
  pub limit : ℕ
  pub buf : Bytes

is_empty : Bytes → Bool
is_empty [] = true
is_empty (b ∷ s) = false

-- (a *streamAudit) write. `room <= 0` on ints is `room == 0` on the truncated difference.
unfoldable pub write : StreamAudit → Bytes → StreamAudit
unfolding is_empty
write a s =
    let room = a.limit - length a.buf in
    if room == 0 || is_empty s
    then a
    else if leb (length s) room
    then record a { buf = a.buf ++ s }
    else record a { buf = a.buf ++ take (back_off s room) s }

-- The writes of one stream, in order.
unfoldable pub write_all : StreamAudit → List Bytes → StreamAudit
write_all a [] = a
write_all a (s ∷ rest) = write_all (write a s) rest
