-- ===== src/Examples/Operations.antt =====
-- The engine forms, the usage panel, the probe cache, the publication of the index and the log writers at concrete inputs
-- (handlers.go, usage.go, engine.go, routing.go, logwriter.go).
use gateway.Prelude.{
  ℕ, ◌≡◌, ◌≢◌, refl, String, true, false, none, some, List, [], ◌∷◌, empty_map, insert, nat_key,
  arith,
}
use gateway.Engine.{EngineConfig, reload_engine_cache}
use gateway.Settings.{
  blank, number, EngineForm, Answers, Settings, Request, handle_engine_settings, guarded,
  with_fields, engine_form_fields, store_engine,
}
use gateway.Settings.Edits.{is_saved}
use gateway.Settings.Frames.{saves_form, removes, respond, error-unchanged}
use gateway.Settings.Unique.{IsUnique, submit_all, submit_all-IsUnique}
use gateway.Usage.{UsageRow}
use gateway.Probe.{ProbeData, ProbeCache, enter, own_refresh, enter_entry}
use gateway.Probe.Flights as Flights
use gateway.Routing.{RouteIndex, is_stale, store_route_index, invalidate_route_index}
use gateway.Routing.Publication as Publication
use gateway.LogWriter.{
  Answers as WriterAnswers, new_writer, Event, enqueues, receives, fires, run_writer,
}
use gateway.LogWriter.Order.{accepted, flushed-run_writer}
use gateway.LogWriter.Limits.{IsBounded}

abbrev lab : EngineConfig
lab = record { id = 1; name = "lab"; type = "ollama"; base_url = "lab"; port = 11434; api_key = "" }

abbrev cloud : EngineConfig
cloud = record {
  id = 2;
  name = "cloud";
  type = "openai_compat";
  base_url = "cloud";
  port = 0;
  api_key = "s3cret";
}

abbrev two_engines : Settings
two_engines = record {
  stored = lab ∷ cloud ∷ [];
  cache = reload_engine_cache 8 (some (lab ∷ cloud ∷ []));
}

abbrev works : Answers
works = record { reads = true; writes = true; reads_again = true }

abbrev stumbles : Answers
stumbles = record { reads = true; writes = true; reads_again = false }

abbrev new_url : EngineForm
new_url = record {
  engine_name = "";
  api_key = "";
  base_url = "cloud2";
  engine_type = "openai_compat";
  engine_id = number 2;
  port = blank;
}

abbrev unnamed : EngineForm
unnamed = record {
  engine_name = "";
  api_key = "";
  base_url = "x";
  engine_type = "openai_compat";
  engine_id = blank;
  port = blank;
}

abbrev posted : EngineForm → Request
posted f = record { is_admin = true; parses = true; form = f }

distinct_ids : IsUnique two_engines.stored
unfolding IsUnique
distinct_ids = ((λ e. absurd (omega (arith, e)), tt), (tt, tt))

submit_all-IsUnique_example :
    IsUnique
      (submit_all 8 two_engines
        (saves_form works (posted new_url) ∷ removes stumbles (posted new_url) ∷ [])).stored
submit_all-IsUnique_example =
    submit_all-IsUnique 8 two_engines
      (saves_form works (posted new_url) ∷ removes stumbles (posted new_url) ∷ []) distinct_ids

number_inj : (i j : ℕ) → number i ≡ number j → i ≡ j
number_inj i j e = cc

error-unchanged_example :
    (respond 8 two_engines (saves_form works (posted unnamed))).1 ≡ two_engines
unfolding respond handle_engine_settings is_saved guarded with_fields engine_form_fields
    store_engine
error-unchanged_example = error-unchanged 8 two_engines (saves_form works (posted unnamed)) refl

abbrev usage_row : String → String → ℕ → UsageRow
usage_row who model n = record {
  user_name = who;
  user = some "active";
  model = model;
  requests = 1;
  in_tokens = n;
  out_tokens = n;
  streamed = 0;
  unreported = 0;
}

abbrev week : List UsageRow
week = usage_row "ann" "llama" 9 ∷ usage_row "bob" "qwen" 5 ∷ usage_row "ann" "qwen" 1 ∷ []

abbrev no_probes : ProbeCache
no_probes = record { entries = empty_map; gen = 4; next = 0 }

abbrev up : ProbeData
up = record { status = true; models = "llama" ∷ []; raw = [] }

abbrev quiet : Flights.World
quiet = record { cache = no_probes; running = empty_map }

abbrev flying : Flights.World
flying = record { cache = (enter 1 7 no_probes).0; running = insert 0 (1, 4) empty_map }

quiet-IsSound : Flights.IsSound quiet
quiet-IsSound = record {
  runs = λ id d h. absurd (no_number d h);
  announces = λ id d h. absurd (no_pair (id, 4) h);
  old = λ id d g h. absurd (no_pair (id, g) h);
  below = λ id d g h. absurd (no_pair (id, g) h);
}
  where
    no_number : (d : ℕ) → none ≢ some d
    no_number d h = cc

    no_pair : (p : ℕ × ℕ) → none ≢ some p
    no_pair p h = cc

one_call : Flights.Reach quiet flying
unfolding enter
one_call = Flights.next Flights.here (Flights.calls_owner 1 7 0 4 refl)

abbrev first_channel : ℕ
first_channel = 0

single_flight_example : first_channel ≡ first_channel
unfolding enter insert
single_flight_example =
    Flights.single_flight 1 first_channel first_channel quiet-IsSound one_call refl refl

waits-running_example : flying.running 0 ≡ some (1, 4)
unfolding enter own_refresh insert enter_entry
waits-running_example = Flights.waits-running 1 8 0 quiet-IsSound one_call refl

abbrev empty_index : RouteIndex
empty_index = record { by_model = λ name. []; built = 100_000_000_000; probed = true }

-- A build that an invalidation overtakes publishes nothing, and the next one does.
abbrev published : Publication.World
published = record {
  routing = record { index = some empty_index; gen = 1; refreshing = false };
  invalidations = 1;
  running = [];
  begun = 1;
}

two_builds : Publication.Reach Publication.started published
unfolding store_route_index invalidate_route_index
two_builds =
    Publication.next
      (Publication.next
        (Publication.next
          (Publication.next (Publication.next Publication.here Publication.begins)
            Publication.invalidates)
          Publication.begins)
        (Publication.finishes ((1, 1) ∷ []) [] 0 0 empty_index refl))
      (Publication.finishes [] [] 1 1 empty_index refl)

fresh-current_example : published.begun ≡ published.invalidations
unfolding is_stale
fresh-current_example =
    Publication.fresh-current empty_index 100_000_000_001 two_builds refl (omega arith) refl

abbrev accepting : WriterAnswers ℕ
accepting = record { begin_ok = true; prepare_ok = true; exec_ok = λ e. true; commit_ok = true }

abbrev traffic : List (Event ℕ)
traffic = enqueues 7 ∷ receives accepting ∷ enqueues 8 ∷ enqueues 9 ∷ fires accepting ∷ []

flushed-run_writer_example : (run_writer traffic accepting).flushed ≡ accepted new_writer traffic
flushed-run_writer_example = flushed-run_writer traffic accepting

empty-IsBounded : IsBounded {A = ℕ} new_writer
empty-IsBounded = record { queue_bound = omega arith; batch_bound = omega arith; waits = refl }
