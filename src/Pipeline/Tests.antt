-- ===== src/Pipeline/Tests.antt =====
-- The theorems at runs over a record or two.
use semantic_intelligence_la.Contracts.Sessions
use semantic_intelligence_la.Contracts.Evidence.{Record}
use semantic_intelligence_la.Storage.JsonLines.{background}
use semantic_intelligence_la.SessionStore.{MemoryStore}
use semantic_intelligence_la.Adapters.Radius
use semantic_intelligence_la.Adapters.Tests.{
  stamps, json_of, accounting, radius_config, payload, adapted, adapted_ok, stopped,
}
use semantic_intelligence_la.Pipeline.Normalize.{Progress, Service, no_counts, run_records, run}
use semantic_intelligence_la.Pipeline.Normalize.Laws.{Turns, Handled, run_records-handles}
use semantic_intelligence_la.Pipeline.Normalize.Completion.{CanHandle}
use semantic_intelligence_la.Pipeline.Sessions.Laws.{Ingested, on_memory, run-stores}
use semantic_intelligence_la.Base.{
  length, Text, ascii, not_found, Result, ok, err, ℕ, suc, ◌+◌, ◌≡◌, refl, true, none, some, List,
  [], ◌∷◌, ◌++◌,
}

abbrev nothing_done : {S : Type 0} → S → Progress S (Unit {0})
nothing_done s = record { written = []; projection = s; queue = tt; counts = no_counts }

-- a service whose events are the ids of the records, and whose projection counts them
abbrev counting : Service Text ℕ (Unit {0})
counting = record {
  normalize = λ r. ok r.event_id;
  encode = λ e. ok e;
  project = some (λ e n. (n + 1, ok tt));
  publish = none;
  build_envelope = λ e. err not_found;
}

abbrev two_records : List Record
two_records = adapted.raw ∷ adapted.raw ∷ []

abbrev counted_two : Progress ℕ (Unit {0})
counted_two = record {
  written = adapted.raw.event_id ∷ adapted.raw.event_id ∷ [];
  projection = 2;
  queue = tt;
  counts = record { records = 2; projected = 2; published = 0 };
}

two_run : run_records counting background 0 two_records (nothing_done 0) ≡ (counted_two, ok tt)
unfolding run_records
two_run = refl

run_records-handles_example :
    (events : List Text) × Turns counting.normalize two_records events
    × (lines : List Text) × Handled counting (nothing_done 0) counted_two events lines
run_records-handles_example =
    run_records-handles counting background 0 two_records (nothing_done 0) counted_two two_run

can_count : CanHandle counting adapted.raw
can_count = record {
  event = adapted.raw.event_id;
  normalized = refl;
  line = adapted.raw.event_id;
  encoded = refl;
  projects = λ n. refl;
  publishes = tt;
}

abbrev marshal : Sessions.Event → Result Text
marshal event = ok event.event_id

ingested : Ingested ⦃u = ascii⦄ stamps (json_of accounting) marshal radius_config adapted.raw
ingested = record {
  payload = payload;
  ingested_at = 7;
  now = 8;
  adapted = adapted;
  status = Sessions.stop;
  taken = adapted_ok;
  raw = refl;
  known = stopped;
  prints = λ e n. (e.event_id, refl);
}

abbrev no_sessions : Progress MemoryStore (Unit {0})
no_sessions = nothing_done []

run-stores_example :
    (d : Progress MemoryStore (Unit {0})) × (events : List Sessions.Event) × (run
        (on_memory ⦃u = ascii⦄ stamps (json_of accounting) marshal)
        background
        (some (ok (adapted.raw ∷ [])))
        true
        no_sessions
      ≡ (d, ok tt))
    × Turns
        (Radius.normalize_record ⦃u = ascii⦄ stamps (json_of accounting))
        (adapted.raw ∷ [])
        events
    × (d.projection ≡ no_sessions.projection ++ events)
    × (d.counts.records ≡ no_sessions.counts.records + suc (length {A = Record} []))
    × (d.counts.projected ≡ no_sessions.counts.projected + suc (length {A = Record} []))
run-stores_example =
    run-stores ⦃u = ascii⦄ stamps (json_of accounting) marshal radius_config adapted.raw []
      no_sessions (ingested, tt)
