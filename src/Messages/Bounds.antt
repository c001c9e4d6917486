-- ===== src/Messages/Bounds.antt =====
-- The bound on the text that is passed on (api_handlers.go: sanitizeMessages, sanitizeContent).
use gateway.Prelude.{
  ℕ, ◌≡◌, refl, ap, ap₂, ◌∙◌, Bool, true, false, ◌&&◌, leb, le→leb, length, All, arith,
}
use gateway.Text.{truncate_input}
use gateway.Json.{
  Json, null, text, array, object, Items, no_items, item, Fields, get, is, boolean, number,
}
use gateway.Json.Maps.{get-set}
use gateway.Messages.{
  cut_part, sanitize_part, sanitize_parts, sanitize_content, content_or_empty, sanitize_message,
  sanitize_messages,
}
use gateway.Messages.Again.{truncate_within}

-- Whether a part with this "text" and "type" has text within the bound, or none.
unfoldable pub part_fits : ℕ → Json → Bool → Bool
part_fits n (text s) true = leb (length s) n
part_fits n (text s) false = true
part_fits n null t = true
part_fits n (boolean b) t = true
part_fits n (number m) t = true
part_fits n (array xs) t = true
part_fits n (object f) t = true

-- Whether each item is a part whose text is within the bound.
unfoldable pub parts_fit : ℕ → Items → Bool
unfolding part_fits
parts_fit n no_items = true
parts_fit n (item null rest) = false
parts_fit n (item (boolean b) rest) = false
parts_fit n (item (number m) rest) = false
parts_fit n (item (text s) rest) = false
parts_fit n (item (array xs) rest) = false
parts_fit n (item (object f) rest) =
    part_fits n (get "text" f) (is "text" (get "type" f)) && parts_fit n rest

-- Whether a content is null, text within the bound, or parts that are.
unfoldable pub fits : ℕ → Json → Bool
unfolding parts_fit
fits n null = true
fits n (boolean b) = false
fits n (number m) = false
fits n (text s) = leb (length s) n
fits n (array xs) = parts_fit n xs
fits n (object f) = false

part_fits-cut_part :
    (n : ℕ) (v : Json) (t : Bool) (f : Fields)
    → get "text" f ≡ v
    → is "text" (get "type" f) ≡ t
    → part_fits n (get "text" (cut_part n v t f)) (is "text" (get "type" (cut_part n v t f))) ≡ true
unfolding part_fits cut_part
part_fits-cut_part n (text s) true f e h =
    ap₂ (part_fits n) (get-set "text" "text" (text (truncate_input n s)) f)
      (ap (is "text") (get-set "text" "type" (text (truncate_input n s)) f) ∙ h)
    ∙ le→leb _ _ (truncate_within n s)
part_fits-cut_part n (text s) false f e h = ap₂ (part_fits n) e h
part_fits-cut_part n null t f e h = ap₂ (part_fits n) e h
part_fits-cut_part n (boolean b) t f e h = ap₂ (part_fits n) e h
part_fits-cut_part n (number m) t f e h = ap₂ (part_fits n) e h
part_fits-cut_part n (array xs) t f e h = ap₂ (part_fits n) e h
part_fits-cut_part n (object g) t f e h = ap₂ (part_fits n) e h

parts_fit-sanitize_parts : (n : ℕ) (xs : Items) → parts_fit n (sanitize_parts n xs) ≡ true
unfolding parts_fit sanitize_parts sanitize_part
parts_fit-sanitize_parts n no_items = refl
parts_fit-sanitize_parts n (item null rest) = parts_fit-sanitize_parts n rest
parts_fit-sanitize_parts n (item (boolean b) rest) = parts_fit-sanitize_parts n rest
parts_fit-sanitize_parts n (item (number m) rest) = parts_fit-sanitize_parts n rest
parts_fit-sanitize_parts n (item (text s) rest) = parts_fit-sanitize_parts n rest
parts_fit-sanitize_parts n (item (array xs) rest) = parts_fit-sanitize_parts n rest
parts_fit-sanitize_parts n (item (object f) rest) =
    ap₂ (λ a b. a && b) (part_fits-cut_part n (get "text" f) (is "text" (get "type" f)) f refl refl)
      (parts_fit-sanitize_parts n rest)

fits_missing : (n : ℕ) (calls : Json) → fits n (content_or_empty null calls) ≡ true
unfolding fits content_or_empty
fits_missing n null = le→leb 0 n (omega arith)
fits_missing n (boolean b) = refl
fits_missing n (number m) = refl
fits_missing n (text s) = refl
fits_missing n (array xs) = refl
fits_missing n (object f) = refl

fits-content :
    (n : ℕ) (c calls : Json) → fits n (content_or_empty (sanitize_content n c) calls) ≡ true
unfolding fits content_or_empty sanitize_content
fits-content n null calls = fits_missing n calls
fits-content n (boolean b) calls = fits_missing n calls
fits-content n (number m) calls = fits_missing n calls
fits-content n (object f) calls = fits_missing n calls
fits-content n (text s) calls = le→leb _ _ (truncate_within n s)
fits-content n (array xs) calls = parts_fit-sanitize_parts n xs

-- No message that is passed on has a text longer than the bound, as its content or in a part of it,
-- and each content is null, text or a list of objects.
pub sanitize_messages-All :
    (n : ℕ) (ms : Items) → All (λ m. fits n m.content ≡ true) (sanitize_messages n ms)
unfolding sanitize_messages sanitize_message
sanitize_messages-All n no_items = tt
sanitize_messages-All n (item null rest) = sanitize_messages-All n rest
sanitize_messages-All n (item (boolean b) rest) = sanitize_messages-All n rest
sanitize_messages-All n (item (number m) rest) = sanitize_messages-All n rest
sanitize_messages-All n (item (text s) rest) = sanitize_messages-All n rest
sanitize_messages-All n (item (array xs) rest) = sanitize_messages-All n rest
sanitize_messages-All n (item (object f) rest) =
    (fits-content n (get "content" f) (get "tool_calls" f), sanitize_messages-All n rest)
