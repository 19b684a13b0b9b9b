-- ===== src/Watcher/Cycle.antt =====
-- RunCycle: one round over the tenants. The store of watcher states, the query services and the
-- harness are parameters, each with a state of its own that the round passes on.
pub mod Counting
pub mod Laws
pub mod Repeat
use semantic_intelligence_la.Base.Times.{Time, Duration, pos}
use semantic_intelligence_la.Agents.{RunRequest}
use semantic_intelligence_la.Contracts.Access
use semantic_intelligence_la.Contracts.Sessions
use semantic_intelligence_la.AccessStore
use semantic_intelligence_la.SessionStore
use semantic_intelligence_la.Query.Filters.{max_session_limit}
use semantic_intelligence_la.Harness.Formats.{Formats}
use semantic_intelligence_la.Harness.Finish.{
  Returned, refused, returned, joined, is_approval_required,
}
use semantic_intelligence_la.WatcherStore.{WatcherState}
use semantic_intelligence_la.Watcher.{Config, size_of}
use semantic_intelligence_la.Watcher.Candidates.{
  Candidate, detect_candidates, enrich_candidates_with_access,
}
use semantic_intelligence_la.Watcher.Requests.{watcher_name, watcher_state_key, build_run_request}
use semantic_intelligence_la.Base.{
  if◌then◌else◌, length, Text, codes, CharTables, eq_text, Error, not_found, wrapped, Result, ok,
  err, ℕ, zero, suc, ◌+◌, ◌-◌, Bool, true, false, ◌||◌, Option, none, some, List, [], ◌∷◌, ◌++◌,
  arith,
}

-- the named results of RunCycle, with the errors that it joins
pub record Tally : Type 0 where
  pub candidates : ℕ
  pub triggered : ℕ
  pub skipped : ℕ
  pub triggered_run_ids : List Text
  pub errors : List Error

-- errors.Is(err, agentmetadata.ErrNotFound)
abbrev pub is_not_found : Error → Bool
is_not_found not_found = true
is_not_found (wrapped _ e) = is_not_found e
is_not_found _ = false

-- the id of the run that RunInvestigation returns
abbrev pub run_id_of : Returned → Text
run_id_of (refused e) = []
run_id_of (returned r e) = r.run.id
run_id_of (joined r e persist_err) = r.run.id

-- the error that the second `switch` reports: none for a run that awaits approval
abbrev pub run_error : Returned → Option Error
run_error (refused e) = if is_approval_required e then none else some e
run_error (returned r none) = none
run_error (returned r (some e)) = if is_approval_required e then none else some e
run_error (joined r e persist_err) =
    if is_approval_required e || is_approval_required persist_err then none else some e

abbrev pub add_error : Text → Error → Tally → Tally
add_error what e t = record t { errors = t.errors ++ wrapped what e ∷ [] }

abbrev pub count_skipped : Tally → Tally
count_skipped t = record t { skipped = suc t.skipped }

abbrev pub count_triggered : Text → Tally → Tally
count_triggered run_id t = record t {
  triggered = suc t.triggered;
  triggered_run_ids = t.triggered_run_ids ++ run_id ∷ [];
}

module _ {S : Type 0} {W : Type 0} (get : S → Text → Result WatcherState)
    (upsert : S → WatcherState → S × Result (Unit {0}))
    (investigate : W → RunRequest → W × Returned) ⦃u : CharTables⦄ (f : Formats) (now : Time) where
  -- the states, the harness and the tally
  abbrev pub Cycle : Type 0
  Cycle = S × W × Tally

  -- whether a run was triggered, and what follows
  abbrev pub Considered : Type 0
  Considered = Bool × Cycle

  abbrev pub new_state : Candidate → Text → WatcherState
  new_state c run_id = record {
    key = watcher_state_key c.tenant_id c.subscriber;
    watcher_name = watcher_name;
    tenant_id = c.tenant_id;
    subject_id = c.subscriber;
    last_event_id = c.latest.event_id;
    last_occurred_at = some c.latest.occurred_at;
    last_run_id = run_id;
    updated_at = now;
  }

  abbrev pub after_upsert : Text → W → Tally → S × Result (Unit {0}) → Considered
  after_upsert run_id w t (states, err e) =
      (false, (states, w, add_error (codes "store watcher state") e t))
  after_upsert run_id w t (states, ok _) = (true, (states, w, count_triggered run_id t))

  abbrev pub after_run : Candidate → S → Tally → W × Returned → Option Error → Considered
  after_run c states t (w, r) (some e) =
      (false, (states, w, add_error (codes "trigger investigation") e t))
  after_run c states t (w, r) none =
      after_upsert (run_id_of r) w t (upsert states (new_state c (run_id_of r)))

  unfoldable pub trigger : Candidate → ℕ → Cycle → Considered
  trigger c window (states, w, t) =
      let (w2, r) = investigate w (build_run_request f c now window) in
      after_run c states t (w2, r) (run_error r)

  abbrev pub after_load : Candidate → ℕ → Cycle → Result WatcherState → Considered
  after_load c window (states, w, t) (ok state) =
      if eq_text state.last_event_id c.latest.event_id
      then (false, (states, w, count_skipped t))
      else trigger c window (states, w, t)
  after_load c window (states, w, t) (err e) =
      if is_not_found e
      then trigger c window (states, w, t)
      else (false, (states, w, add_error (codes "load watcher state") e t))

  -- the body of the loop over the candidates, behind its test
  unfoldable pub consider : Candidate → ℕ → Cycle → Considered
  unfolding trigger
  consider c window (states, w, t) =
      after_load c window (states, w, t) (get states (watcher_state_key c.tenant_id c.subscriber))

  -- the loop over the candidates, with the number of runs that the tenant has left
  unfoldable pub run_candidates : List Candidate → ℕ → ℕ → Cycle → Cycle
  unfolding consider
  run_candidates [] left window cycle = cycle
  run_candidates (c ∷ cs) zero window cycle = cycle
  run_candidates (c ∷ cs) (suc left) window cycle =
      let (triggered, next) = consider c window cycle in
      run_candidates cs (if triggered then left else suc left) window next

  module _ (sessions : W → SessionStore.Query → Result (List Sessions.Event))
      (access : Option (W → AccessStore.Query → Result (List Access.Event))) (config : Config) where
    abbrev pub window : ℕ
    window = size_of config.window

    abbrev pub session_query : Text → SessionStore.Query
    session_query tenant_id = record {
      tenant_id = tenant_id;
      subscriber_id = [];
      session_id = [];
      status = [];
      nas_ip_address = [];
      client_ip_address = [];
      from = some (now - window);
      to = some now;
      limit = pos max_session_limit;
    }

    abbrev pub access_in : W → Option (AccessStore.Query → Result (List Access.Event))
    access_in w = elim access [ none ↦ none | some search ↦ some (search w) ]

    abbrev pub enrich_errors : List Error → List Error
    enrich_errors [] = []
    enrich_errors (e ∷ es) = wrapped (codes "enrich watcher candidates") e ∷ []

    abbrev pub count_candidates : List Candidate → List Error → Tally → Tally
    count_candidates cs es t = record t {
      candidates = t.candidates + length cs;
      errors = t.errors ++ enrich_errors es;
    }

    abbrev pub run_enriched : List Candidate × List Error → Cycle → Cycle
    run_enriched (cs, es) (states, w, t) =
        run_candidates cs (size_of config.max_runs_per_cycle) window
          (states, w, count_candidates cs es t)

    abbrev pub run_found : Text → Result (List Sessions.Event) → Cycle → Cycle
    run_found tenant_id (err e) (states, w, t) =
        (states, w, add_error (codes "search recent sessions") e t)
    run_found tenant_id (ok events) (states, w, t) =
        run_enriched
          (enrich_candidates_with_access f (access_in w) (now - window) now
            (detect_candidates config tenant_id events))
          (states, w, t)

    -- the body of the loop over the tenants
    unfoldable pub run_tenant : Text → Cycle → Cycle
    unfolding run_candidates
    run_tenant tenant_id (states, w, t) =
        run_found tenant_id (sessions w (session_query tenant_id)) (states, w, t)

    unfoldable pub run_tenants : List Text → Cycle → Cycle
    unfolding run_tenant
    run_tenants [] cycle = cycle
    run_tenants (tenant_id ∷ tenants) cycle = run_tenants tenants (run_tenant tenant_id cycle)

    abbrev pub no_tally : Tally
    no_tally = record {
      candidates = 0;
      triggered = 0;
      skipped = 0;
      triggered_run_ids = [];
      errors = [];
    }

    unfoldable pub run_cycle : S → W → Cycle
    unfolding run_tenants
    run_cycle states w = run_tenants config.tenants (states, w, no_tally)
