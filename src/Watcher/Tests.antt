-- ===== src/Watcher/Tests.antt =====
-- A round of the watcher with the memory store, and the theorems at concrete inputs.
use semantic_intelligence_la.Base.Dict.{Each}
use semantic_intelligence_la.Watcher.Candidates.{group_events}
use semantic_intelligence_la.Watcher.Counts.{
  count_of, occurrences, IsPlain, IsPadded, CountsTwo, group_events-count_of,
  group_events-CountsTwo,
}
use semantic_intelligence_la.Base.Times.{pos}
use semantic_intelligence_la.Base.Dict.{lookup, insert}
use semantic_intelligence_la.Agents.{RunRequest, RunStatus}
use semantic_intelligence_la.RunStore.Records.{Record}
use semantic_intelligence_la.Storage.JsonLines.{background}
use semantic_intelligence_la.SessionStore
use semantic_intelligence_la.SessionStore.Tests as SessionTests
use semantic_intelligence_la.Harness.Formats.{Formats}
use semantic_intelligence_la.Harness.Finish.{Returned, returned}
use semantic_intelligence_la.WatcherStore.{
  WatcherState, MemoryWatcherStateStore, memory_upsert, memory_get, normalize_watcher_state, accept,
  validate_watcher_state,
}
use semantic_intelligence_la.WatcherStore.Laws.{memory_upsert-IsKept}
use semantic_intelligence_la.Watcher.{Config, configure}
use semantic_intelligence_la.Watcher.Candidates.{Candidate, is_short}
use semantic_intelligence_la.Watcher.Limits.{
  IsConfigured, configure-IsConfigured, is_short-overflow,
}
use semantic_intelligence_la.Watcher.Requests.{watcher_state_key}
use semantic_intelligence_la.Watcher.Cycle.{
  Tally, consider, count_skipped, count_triggered, run_candidates, run_tenant, new_state,
}
use semantic_intelligence_la.Watcher.Cycle.Laws.{IsCounted, run_tenant-IsCounted}
use semantic_intelligence_la.Watcher.Cycle.Repeat.{consider-skips_again}
use semantic_intelligence_la.Base.{
  All, Text, codes, ascii, eq_text, trim_space, is_blank, join, to_lower, Result, ok, err,
  not_found, sort_by, ℕ, suc, ◌+◌, ◌≡◌, refl, true, false, none, some, List, [], ◌∷◌, arith,
}
use semantic_intelligence_la.Contracts.Sessions

abbrev formats : Formats
formats = record {
  parse_rfc3339 = λ s. none;
  parse_rfc3339_nano = λ s. none;
  rfc3339 = λ t. codes "t";
  id_time = λ t. codes "now";
  quoted = λ s. s;
  decimal = λ n. (48 + n) ∷ [];
  two_places = λ n. codes "1.00";
}

abbrev run_record : Record
run_record = record {
  run = record {
    id = codes "run:1";
    tenant_id = codes "t";
    case_id = [];
    session_id = codes "s";
    goal = codes "g";
    status = RunStatus.completed;
    runtime_name = [];
    planner_name = [];
    started_at = 1;
    updated_at = 1;
    completed_at = some 1;
  };
  steps = [];
}

-- a harness that counts its runs
abbrev investigate : ℕ → RunRequest → ℕ × Returned
investigate n request = (suc n, returned run_record none)

abbrev get : MemoryWatcherStateStore → Text → Result WatcherState
get = memory_get background

abbrev upsert : MemoryWatcherStateStore → WatcherState → MemoryWatcherStateStore × Result (Unit {0})
upsert = memory_upsert background

abbrev candidate : Candidate
candidate = record {
  tenant_id = codes "t";
  subscriber = codes "ann";
  count = 2;
  latest = SessionTests.late;
  session_events = [];
  access_events = [];
  correlation_summary = [];
}

abbrev empty_tally : Tally
empty_tally = record {
  candidates = 1;
  triggered = 0;
  skipped = 0;
  triggered_run_ids = [];
  errors = [];
}

abbrev state : WatcherState
state = new_state get upsert investigate ⦃u = ascii⦄ formats 50 candidate (codes "run:1")

abbrev stored : MemoryWatcherStateStore
stored = (watcher_state_key ⦃u = ascii⦄ (codes "t") (codes "ann"), state) ∷ []

plain : trim_space candidate.latest.event_id ≡ candidate.latest.event_id
unfolding trim_space
plain = refl

first :
    consider get upsert investigate ⦃u = ascii⦄ formats 50 candidate 10 ([], 7, empty_tally)
    ≡ (true, (stored, 8, count_triggered (codes "run:1") empty_tally))
unfolding consider memory_get memory_upsert accept validate_watcher_state normalize_watcher_state
    is_blank watcher_state_key insert lookup join to_lower
first = refl

consider-skips_again_example :
    consider get upsert investigate ⦃u = ascii⦄ formats 50 candidate 10
      (stored, 8, count_triggered (codes "run:1") empty_tally)
    ≡ (false, (stored, 8, count_skipped (count_triggered (codes "run:1") empty_tally)))
consider-skips_again_example =
    consider-skips_again get upsert investigate ⦃u = ascii⦄ formats 50 memory_upsert-IsKept
      candidate plain 10 10 [] stored 7 8 empty_tally (count_triggered (codes "run:1") empty_tally)
      first

abbrev config : Config
config = record {
  tenants = codes "t" ∷ [];
  poll_interval = pos 1;
  window = pos 10;
  min_events = pos 1;
  short_session_threshold = pos 60_000_000_000;
  max_runs_per_cycle = pos 2;
}

configured : configure config ≡ ok config
unfolding configure trim_space sort_by
configured = refl

configure-IsConfigured_example : IsConfigured config
configure-IsConfigured_example = configure-IsConfigured config config configured

abbrev recent_sessions : ℕ → SessionStore.Query → Result (List Sessions.Event)
recent_sessions w q = SessionStore.memory_search ⦃u = ascii⦄ background (SessionTests.late ∷ []) q

run_tenant-IsCounted_example :
    IsCounted 2 7
      (run_tenant get upsert investigate ⦃u = ascii⦄ formats 12 recent_sessions none config
        (codes "t")
        ([], 7, empty_tally)).1
      empty_tally
      (run_tenant get upsert investigate ⦃u = ascii⦄ formats 12 recent_sessions none config
        (codes "t")
        ([], 7, empty_tally)).2
run_tenant-IsCounted_example =
    run_tenant-IsCounted get upsert investigate ⦃u = ascii⦄ formats 12 (λ w. w) (λ w request. refl)
      recent_sessions none config (codes "t") [] 7 empty_tally

-- with one run left and a store that refuses, every candidate starts a run
abbrev refusing :
    MemoryWatcherStateStore → WatcherState → MemoryWatcherStateStore × Result (Unit {0})
refusing states _ = (states, err not_found)

over_limit :
    (run_candidates get refusing investigate ⦃u = ascii⦄ formats 50
      (candidate ∷ candidate ∷ candidate ∷ [])
      1
      10
      ([], 7, empty_tally)).1
    ≡ 10
unfolding run_candidates consider memory_get lookup watcher_state_key join to_lower is_blank
    trim_space
over_limit = refl

is_short-overflow_example : is_short 10_000_000_000 (pos 60_000_000_000) ≡ true
is_short-overflow_example =
    is_short-overflow 10_000_000_000 60_000_000_000 (omega arith) (omega arith)

abbrev recent : List Sessions.Event
recent = SessionTests.early ∷ SessionTests.late ∷ []

recent-IsPlain : All IsPlain recent
unfolding trim_space
recent-IsPlain = (refl, (refl, tt))

group_events-count_of_example :
    count_of (codes "ann") (group_events (codes "t") (pos 60_000_000_000) [] recent)
    ≡ occurrences (pos 60_000_000_000) (codes "ann") recent
group_events-count_of_example =
    group_events-count_of (codes "t") (pos 60_000_000_000) recent (codes "ann") recent-IsPlain

abbrev spaced : Sessions.Event
spaced = record SessionTests.early { subscriber_id = codes " ann" }

spaced-IsPadded : All (IsPadded (codes "ann")) (spaced ∷ spaced ∷ spaced ∷ [])
unfolding trim_space eq_text
spaced-IsPadded = ((refl, refl), ((refl, refl), ((refl, refl), tt)))

group_events-CountsTwo_example :
    Each CountsTwo
      (group_events (codes "t") (pos 60_000_000_000) [] (spaced ∷ spaced ∷ spaced ∷ []))
group_events-CountsTwo_example =
    group_events-CountsTwo (codes "t") (codes "ann") (pos 60_000_000_000)
      (spaced ∷ spaced ∷ spaced ∷ []) spaced-IsPadded
