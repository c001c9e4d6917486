-- ===== src/Settings/Frames.antt =====
-- What a request on the engine forms leaves alone (handlers.go, engine.go).
use gateway.Prelude.{
  ℕ, ◌≡◌, ◌≢◌, refl, sym, ap, subst, ◌∙◌, true, false, Bool-cases, inl, inr, ◌⊎◌, Option, none,
  some, List, [], ◌∷◌, ◌++◌, ◌==◌, arith,
}
use gateway.Engine.{EngineConfig, reload_engine_cache}
use gateway.Settings.{
  IntField, number, edit_engine, Answers, Settings, Reply, save_failed, save_engines, saved,
  Request, handle_engine_settings, other_engines, handle_remove_engine, find_engine,
}
use gateway.Settings.Edits.{
  is_saved, is_success, Change, appends, edits, drops, Outcome, refuses, saves, settings-Outcome,
  remove-Outcome,
}

number_inj : (i j : ℕ) → number i ≡ number j → i ≡ j
number_inj i j e = cc

find-append :
    (j : ℕ) (es ys : List EngineConfig) (e : EngineConfig)
    → find_engine j es ≡ some e
    → find_engine j (es ++ ys) ≡ some e
unfolding find_engine
find-append j [] ys e h = ground arith
find-append j (x ∷ es) ys e h = elim (Bool-cases (x.id == j)) [
  | inl t ↦ rw t (ground (arith, h, t))
  | inr t ↦ rw t (find-append j es ys e (ground (arith, h, t)))
]

find-keep_ne :
    (i j : ℕ) (es : List EngineConfig)
    → i ≢ j
    → find_engine j (other_engines i es) ≡ find_engine j es
unfolding find_engine other_engines
find-keep_ne i j [] h = refl
find-keep_ne i j (x ∷ es) h = ground (arith, find-keep_ne i j es h, h)

-- After an edit, if there is one, another ID still has the engine it had.
Agrees : ℕ → List EngineConfig → Option (List EngineConfig) → Type 0
Agrees j es none = Unit
Agrees j es (some es') = find_engine j es' ≡ find_engine j es

cons-Agrees :
    (j : ℕ) (x : EngineConfig) (es : List EngineConfig) (o : Option (List EngineConfig))
    → Agrees j es o
    → Agrees j (x ∷ es) (elim o [ none ↦ none | some es' ↦ some (x ∷ es') ])
unfolding Agrees find_engine
cons-Agrees j x es none h = tt
cons-Agrees j x es (some es') h = rw h

edit-Agrees :
    (i j : ℕ) (f : EngineConfig → EngineConfig) (es : List EngineConfig)
    → ((e : EngineConfig) → (f e).id ≡ e.id)
    → i ≢ j
    → Agrees j es (edit_engine i f es)
unfolding Agrees find_engine edit_engine
edit-Agrees i j f [] k h = tt
edit-Agrees i j f (x ∷ es) k h = elim (Bool-cases (x.id == i)) [
  | inl t ↦ rw t (edited t)
  | inr t ↦ rw t (cons-Agrees j x es (edit_engine i f es) (edit-Agrees i j f es k h))
]
  where
    edited : (x.id == i) ≡ true → find_engine j (f x ∷ es) ≡ find_engine j (x ∷ es)
    edited t = ground (arith, k x, h, t)

find-edit_ne :
    (i j : ℕ) (f : EngineConfig → EngineConfig) (es es' : List EngineConfig)
    → ((e : EngineConfig) → (f e).id ≡ e.id)
    → i ≢ j
    → edit_engine i f es ≡ some es'
    → find_engine j es' ≡ find_engine j es
unfolding Agrees
find-edit_ne i j f es es' k h e = subst (Agrees j es) e (edit-Agrees i j f es k h)

-- The engine that a changed list has under another ID.
find-Change :
    (field : IntField) (j : ℕ) (e : EngineConfig) (es es' : List EngineConfig)
    → field ≢ number j
    → Change field es es'
    → find_engine j es ≡ some e
    → find_engine j es' ≡ some e
find-Change field j e es es' h (appends x fresh b q) m = rw q (find-append j es (x ∷ []) e m)
find-Change field j e es es' h (edits id f k b q) m =
    find-edit_ne id j f es es' k (λ same. h (b ∙ ap number same)) q ∙ m
find-Change field j e es es' h (drops id b q) m =
    rw q (find-keep_ne id j es (λ same. h (b ∙ ap number same)) ∙ m)

success_saved : (r : Reply) → is_success r ≡ true → is_saved r ≡ true
unfolding is_success is_saved
success_saved r h = ground arith

true_ne_false : true ≢ false
true_ne_false e = cc

save_failed_saved : is_saved save_failed ≢ false
unfolding is_saved
save_failed_saved e = cc

save_failed_success : is_success save_failed ≢ true
unfolding is_success
save_failed_success e = cc

module _ (slots : ℕ) (a : Answers) (s : Settings) where
  pub saved-stored :
      (r : Reply) (es : List EngineConfig)
      → ((saved r (save_engines slots a es s)).1.stored ≡ s.stored)
        ⊎ ((saved r (save_engines slots a es s)).1.stored ≡ es)
  unfolding save_engines saved
  saved-stored r es = elim (Bool-cases a.writes) [
    | inl t ↦ elim (Bool-cases a.reads_again) [
      | inl u ↦ simp (t, u) (inr refl)
      | inr u ↦ simp (t, u) (inr refl)
    ]
    | inr t ↦ simp t (inl refl)
  ]

  Outcome-keeps :
      (field : IntField) (j : ℕ) (e : EngineConfig) (p : Reply × Settings)
      → field ≢ number j
      → Outcome slots a field s p
      → find_engine j s.stored ≡ some e
      → find_engine j p.1.stored ≡ some e
  Outcome-keeps field j e p h (refuses r n q) m = rw q m
  Outcome-keeps field j e p h (saves r es n c q) m = rw q (elim (saved-stored r es) [
    | inl u ↦ rw u m
    | inr u ↦ rw u (find-Change field j e s.stored es h c m)
  ])

  -- What an answer says of the settings after it.
  pub record IsTold (p : Reply × Settings) : Type 0 where
    pub no_change : is_saved p.0 ≡ false → p.1 ≡ s
    pub coherent : is_success p.0 ≡ true → p.1.cache ≡ reload_engine_cache slots (some p.1.stored)

  saved-IsTold :
      (r : Reply) (es : List EngineConfig)
      → is_success r ≡ true
      → IsTold (saved r (save_engines slots a es s))
  unfolding save_engines saved
  saved-IsTold r es n = elim (Bool-cases a.writes) [
    | inl t ↦ elim (Bool-cases a.reads_again) [
      | inl u ↦
          simp (t, u)
            (record {
              no_change = λ m. absurd (true_ne_false (sym (success_saved r n) ∙ m));
              coherent = λ m. refl;
            })
      | inr u ↦
          simp (t, u)
            (record {
              no_change = λ m. absurd (save_failed_saved m);
              coherent = λ m. absurd (save_failed_success m);
            })
    ]
    | inr t ↦
        simp t (record { no_change = λ m. refl; coherent = λ m. absurd (save_failed_success m) })
  ]

  Outcome-IsTold : (field : IntField) (p : Reply × Settings) → Outcome slots a field s p → IsTold p
  Outcome-IsTold field p (refuses r n q) = subst IsTold (sym q) (record {
    no_change = λ m. refl;
    coherent = λ m. absurd (true_ne_false (sym (success_saved r m) ∙ n));
  })
  Outcome-IsTold field p (saves r es n c q) = subst IsTold (sym q) (saved-IsTold r es n)

  saved-emptied :
      (r : Reply) (es : List EngineConfig)
      → a.writes ≡ true
      → a.reads_again ≡ false
      → (saved r (save_engines slots a es s)).1.cache.engines ≡ []
  unfolding save_engines saved reload_engine_cache
  saved-emptied r es t u = simp (t, u)

  Outcome-emptied :
      (field : IntField) (p : Reply × Settings)
      → Outcome slots a field s p
      → a.writes ≡ true
      → a.reads_again ≡ false
      → p.0 ≡ save_failed
      → p.1.cache.engines ≡ []
  Outcome-emptied field p (refuses r n e) t u f =
      absurd (save_failed_saved (sym (ap is_saved (sym (ap (λ x. x.0) e) ∙ f)) ∙ n))
  Outcome-emptied field p (saves r es n c e) t u f = rw e (saved-emptied r es t u)

-- One form submission, with what the database does during it.
pub data Submission : Type 0 where
  saves_form : Answers → Request → Submission
  removes : Answers → Request → Submission

unfoldable pub answers_of : Submission → Answers
answers_of (saves_form a q) = a
answers_of (removes a q) = a

unfoldable pub id_field : Submission → IntField
id_field (saves_form a q) = q.form.engine_id
id_field (removes a q) = q.form.engine_id

unfoldable pub respond : ℕ → Settings → Submission → Reply × Settings
respond slots s (saves_form a q) = handle_engine_settings slots a q s
respond slots s (removes a q) = handle_remove_engine slots a q s

pub respond-Outcome :
    (slots : ℕ) (s : Settings) (b : Submission)
    → Outcome slots (answers_of b) (id_field b) s (respond slots s b)
unfolding answers_of id_field respond
respond-Outcome slots s (saves_form a q) = settings-Outcome slots a s q
respond-Outcome slots s (removes a q) = remove-Outcome slots a s q

-- A submission that saves or removes an engine changes no stored engine but the one that its engine_id
-- names, whatever the form holds and whether the reads and the write succeed.
pub respond_keeps_others :
    (slots : ℕ) (s : Settings) (b : Submission) (j : ℕ) (e : EngineConfig)
    → id_field b ≢ number j
    → find_engine j s.stored ≡ some e
    → find_engine j (respond slots s b).1.stored ≡ some e
respond_keeps_others slots s b j e h m =
    Outcome-keeps slots (answers_of b) s (id_field b) j e _ h (respond-Outcome slots s b) m

-- A submission that is answered by an error other than a failed save has changed nothing, in the
-- database or in the cache.
pub error-unchanged :
    (slots : ℕ) (s : Settings) (b : Submission)
    → is_saved (respond slots s b).0 ≡ false
    → (respond slots s b).1 ≡ s
error-unchanged slots s b h =
    (Outcome-IsTold slots (answers_of b) s (id_field b) _ (respond-Outcome slots s b)).no_change h

-- A submission that is answered by a success leaves the cache that is built from the list now stored.
pub success-coherent :
    (slots : ℕ) (s : Settings) (b : Submission)
    → is_success (respond slots s b).0 ≡ true
    → (respond slots s b).1.cache ≡ reload_engine_cache slots (some (respond slots s b).1.stored)
success-coherent slots s b h =
    (Outcome-IsTold slots (answers_of b) s (id_field b) _ (respond-Outcome slots s b)).coherent h

-- When the new list is written but cannot be read back, a submission that is answered by "failed" has
-- emptied the cache of engines.
pub failed_reload_empties :
    (slots : ℕ) (s : Settings) (b : Submission)
    → (answers_of b).writes ≡ true
    → (answers_of b).reads_again ≡ false
    → (respond slots s b).0 ≡ save_failed
    → (respond slots s b).1.cache.engines ≡ []
failed_reload_empties slots s b t u f =
    Outcome-emptied slots (answers_of b) s (id_field b) _ (respond-Outcome slots s b) t u f
