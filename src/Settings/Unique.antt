-- ===== src/Settings/Unique.antt =====
-- Engine IDs stay unique under every sequence of form submissions (handlers.go).
use gateway.Prelude.{
  ℕ, ◌+◌, ◌≤◌, ◌≡◌, ◌≢◌, sym, ap, subst, Bool, Bool-cases, inl, inr, Option, none, some, List, [],
  ◌∷◌, ◌++◌, map, ◌==◌, leb, if◌then◌else◌, keep, arith,
}
use gateway.Engine.{EngineConfig}
use gateway.Settings.{IntField, edit_engine, next_id, Answers, Settings, Reply, other_engines}
use gateway.Settings.Edits.{Change, appends, edits, drops, Outcome, refuses, saves}
use gateway.Settings.Frames.{
  saved-stored, Submission, answers_of, id_field, respond, respond-Outcome,
}

abbrev pub ids : List EngineConfig → List ℕ
ids es = map (λ e. e.id) es

Avoids : ℕ → List ℕ → Type 0
Avoids id [] = Unit
Avoids id (n ∷ ns) = (n ≢ id) × Avoids id ns

Distinct : List ℕ → Type 0
Distinct [] = Unit
Distinct (n ∷ ns) = Avoids n ns × Distinct ns

-- No engine of the list has this ID.
IsFree : ℕ → List EngineConfig → Type 0
unfolding Avoids
IsFree id es = Avoids id (ids es)

-- No two engines of the list have the same ID.
unfoldable pub IsUnique : List EngineConfig → Type 0
unfolding Distinct Avoids
IsUnique es = Distinct (ids es)

le-next_id : (n : ℕ) (es : List EngineConfig) → n ≤ next_id n es
unfolding next_id
le-next_id n [] = omega arith
le-next_id n (e ∷ es) = ground (arith, le-next_id (if leb n e.id then e.id + 1 else n) es)

next_id-IsFree : (n k : ℕ) (es : List EngineConfig) → next_id n es ≤ k → IsFree k es
unfolding next_id IsFree Avoids
next_id-IsFree n k [] h = tt
next_id-IsFree n k (e ∷ es) h = (
  ground (arith, le-next_id (if leb n e.id then e.id + 1 else n) es, h),
  next_id-IsFree (if leb n e.id then e.id + 1 else n) k es h,
)

append-IsFree :
    (id : ℕ) (es : List EngineConfig) (x : EngineConfig)
    → x.id ≢ id
    → IsFree id es
    → IsFree id (es ++ x ∷ [])
unfolding IsFree Avoids
append-IsFree id [] x h f = (h, tt)
append-IsFree id (e ∷ es) x h f = (f.0, append-IsFree id es x h f.1)

append-IsUnique :
    (es : List EngineConfig) (x : EngineConfig)
    → IsFree x.id es
    → IsUnique es
    → IsUnique (es ++ x ∷ [])
unfolding IsUnique IsFree Distinct Avoids
append-IsUnique [] x f u = (tt, tt)
append-IsUnique (e ∷ es) x f u =
    (append-IsFree e.id es x (λ same. f.0 (sym same)) u.0, append-IsUnique es x f.1 u.1)

keep-IsFree :
    (p : EngineConfig → Bool) (id : ℕ) (es : List EngineConfig)
    → IsFree id es
    → IsFree id (keep p es)
unfolding IsFree Avoids
keep-IsFree p id [] f = tt
keep-IsFree p id (e ∷ es) f = elim (Bool-cases (p e)) [
  | inl t ↦ rw t (f.0, keep-IsFree p id es f.1)
  | inr t ↦ rw t (keep-IsFree p id es f.1)
]

keep-IsUnique :
    (p : EngineConfig → Bool) (es : List EngineConfig) → IsUnique es → IsUnique (keep p es)
unfolding IsUnique Distinct IsFree Avoids
keep-IsUnique p [] u = tt
keep-IsUnique p (e ∷ es) u = elim (Bool-cases (p e)) [
  | inl t ↦ rw t (keep-IsFree p e.id es u.0, keep-IsUnique p es u.1)
  | inr t ↦ rw t (keep-IsUnique p es u.1)
]

-- The same IDs in the same places, after an edit, if there is one.
SameIds : List EngineConfig → Option (List EngineConfig) → Type 0
SameIds es none = Unit
SameIds es (some es') = ids es' ≡ ids es

cons-SameIds :
    (x : EngineConfig) (es : List EngineConfig) (o : Option (List EngineConfig))
    → SameIds es o
    → SameIds (x ∷ es) (elim o [ none ↦ none | some es' ↦ some (x ∷ es') ])
unfolding SameIds
cons-SameIds x es none h = tt
cons-SameIds x es (some es') h = ap (λ l. x.id ∷ l) h

edit-SameIds :
    (i : ℕ) (f : EngineConfig → EngineConfig) (es : List EngineConfig)
    → ((e : EngineConfig) → (f e).id ≡ e.id)
    → SameIds es (edit_engine i f es)
unfolding SameIds edit_engine
edit-SameIds i f [] k = tt
edit-SameIds i f (x ∷ es) k = elim (Bool-cases (x.id == i)) [
  | inl t ↦ rw t (ap (λ n. n ∷ ids es) (k x))
  | inr t ↦ rw t (cons-SameIds x es (edit_engine i f es) (edit-SameIds i f es k))
]

same_ids-IsUnique :
    (i : ℕ) (f : EngineConfig → EngineConfig) (es es' : List EngineConfig)
    → ((e : EngineConfig) → (f e).id ≡ e.id)
    → edit_engine i f es ≡ some es'
    → IsUnique es
    → IsUnique es'
unfolding IsUnique SameIds Distinct
same_ids-IsUnique i f es es' k e u =
    subst Distinct (sym (subst (SameIds es) e (edit-SameIds i f es k))) u

Change-IsUnique :
    (field : IntField) (es es' : List EngineConfig)
    → Change field es es'
    → IsUnique es
    → IsUnique es'
unfolding other_engines
Change-IsUnique field es es' (appends x fresh b q) u =
    rw q (append-IsUnique es x (next_id-IsFree 1 x.id es (omega (arith, fresh))) u)
Change-IsUnique field es es' (edits id f k b q) u = same_ids-IsUnique id f es es' k q u
Change-IsUnique field es es' (drops id b q) u = rw q (keep-IsUnique _ es u)

unfoldable pub submit_all : ℕ → Settings → List Submission → Settings
submit_all slots s [] = s
submit_all slots s (b ∷ bs) = submit_all slots (respond slots s b).1 bs

Outcome-IsUnique :
    (slots : ℕ) (a : Answers) (field : IntField) (s : Settings) (p : Reply × Settings)
    → Outcome slots a field s p
    → IsUnique s.stored
    → IsUnique p.1.stored
Outcome-IsUnique slots a field s p (refuses r n q) u = rw q u
Outcome-IsUnique slots a field s p (saves r es n c q) u = rw q (elim (saved-stored slots a s r es) [
  | inl v ↦ rw v u
  | inr v ↦ rw v (Change-IsUnique field s.stored es c u)
])

-- If no two stored engines share an ID, then none do after any sequence of submissions that save and
-- remove engines, whatever the forms hold and whichever reads and writes fail.
pub submit_all-IsUnique :
    (slots : ℕ) (s : Settings) (bs : List Submission)
    → IsUnique s.stored
    → IsUnique (submit_all slots s bs).stored
unfolding submit_all
submit_all-IsUnique slots s [] u = u
submit_all-IsUnique slots s (b ∷ bs) u =
    submit_all-IsUnique slots (respond slots s b).1 bs
      (Outcome-IsUnique slots (answers_of b) (id_field b) s _ (respond-Outcome slots s b) u)
