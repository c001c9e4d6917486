-- ===== src/Text/Audit.antt =====
-- The audit buffer of a stream (streamAudit in api_handlers.go).
use gateway.Prelude.{
  ◌+◌, ◌-◌, ◌≤◌, ◌<◌, ◌≡◌, sym, ap, ◌∙◌, List, [], ◌∷◌, ◌++◌, arith, length, take, length-append,
  length-take, append_assoc, append-nil,
}
use gateway.Text.{Bytes, StreamAudit, back_off, write, write_all}
use gateway.Text.Runes.{Rune, IsRune, bytes_of}
use gateway.Text.Cut.{back_off-le, back_off_inside}

abbrev pub concat : List Bytes → Bytes
concat [] = []
concat (s ∷ ss) = s ++ concat ss

pub length-write-le :
    (a : StreamAudit) (s : Bytes)
    → length a.buf ≤ a.limit
    → ((write a s).limit ≡ a.limit) × (length (write a s).buf ≤ a.limit)
unfolding write
length-write-le a [] h = ground arith
length-write-le a (b ∷ s) h = ground (
  arith,
  length-append a.buf (b ∷ s),
  length-append a.buf (take (back_off (b ∷ s) (a.limit - length a.buf)) (b ∷ s)),
  length-take (back_off (b ∷ s) (a.limit - length a.buf)) (b ∷ s),
  back_off-le (b ∷ s) (a.limit - length a.buf),
)

-- The buffer never outgrows its limit, whatever the stream writes.
pub length-write_all-le :
    (ss : List Bytes) (a : StreamAudit)
    → length a.buf ≤ a.limit
    → length (write_all a ss).buf ≤ a.limit
unfolding write_all
length-write_all-le [] a h = h
length-write_all-le (s ∷ ss) a h =
    let kept = length-write-le a s h in
    omega (arith, length-write_all-le ss (write a s) (omega arith))

write_fits :
    (a : StreamAudit) (s : Bytes)
    → length a.buf + length s ≤ a.limit
    → write a s ≡ record a { buf = a.buf ++ s }
unfolding write
write_fits a [] h = ground (arith, append-nil a.buf)
write_fits a (b ∷ s) h = ground arith

-- A stream that fits is recorded whole and in order.
pub write_all-concat :
    (ss : List Bytes) (a : StreamAudit)
    → length a.buf + length (concat ss) ≤ a.limit
    → (write_all a ss).buf ≡ a.buf ++ concat ss
unfolding write_all
write_all-concat [] a h = sym (append-nil a.buf)
write_all-concat (s ∷ ss) a h =
    rw (write_fits a s (omega (arith, length-append s (concat ss))), write_all)
      (write_all-concat ss (record a { buf = a.buf ++ s })
          (omega (arith, length-append s (concat ss), length-append a.buf s))
        ∙ append_assoc a.buf s (concat ss))

write_drops :
    (a : StreamAudit) (r : Rune) (more : Bytes)
    → IsRune r
    → length a.buf < a.limit
    → a.limit < length a.buf + length (bytes_of r)
    → write a (bytes_of r ++ more) ≡ a
unfolding write
write_drops a r more v room over = ground (
  arith,
  append-nil a.buf,
  length-append (bytes_of r) more,
  back_off_inside r more (a.limit - length a.buf) v,
)

-- A rune that does not fit is dropped, and the room that it leaves is given to a later write: the
-- record then holds text that did not stand there in the stream.
write_skips :
    (a : StreamAudit) (r : Rune) (more s : Bytes)
    → IsRune r
    → 0 < length s
    → length a.buf + length s ≤ a.limit
    → a.limit < length a.buf + length (bytes_of r)
    → (write (write a (bytes_of r ++ more)) s).buf ≡ a.buf ++ s
write_skips a r more s v some_text room over =
    rw (write_drops a r more v (omega arith) over)
      (ap (λ (b : StreamAudit). b.buf) (write_fits a s room))
