-- ===== src/Watcher/Cycle/Laws.antt =====
-- The counts of a round.
use semantic_intelligence_la.Base.Times.{Time}
use semantic_intelligence_la.Agents.{RunRequest}
use semantic_intelligence_la.Contracts.Access
use semantic_intelligence_la.Contracts.Sessions
use semantic_intelligence_la.AccessStore
use semantic_intelligence_la.SessionStore
use semantic_intelligence_la.Harness.Formats.{Formats}
use semantic_intelligence_la.Harness.Finish.{Returned}
use semantic_intelligence_la.WatcherStore.{WatcherState}
use semantic_intelligence_la.Watcher.{Config, size_of}
use semantic_intelligence_la.Watcher.Candidates.{
  Candidate, detect_candidates, enrich_candidates_with_access,
}
use semantic_intelligence_la.Watcher.Cycle.{
  Tally, add_error, count_candidates, enrich_errors, access_in, consider, run_candidates,
  session_query, run_enriched, run_found, run_tenant, run_tenants, no_tally, run_cycle,
}
use mathlib.Core.Path.{subst}
use native.Mathlib.Nat.{mul-suc}
use semantic_intelligence_la.Base.{
  if◌then◌else◌, length, length-append, wrapped, Text, codes, CharTables, Error, Result, ok, err, ℕ,
  zero, suc, ◌+◌, ◌-◌, ◌*◌, ◌≤◌, ◌≡◌, Bool, true, false, Option, List, [], ◌∷◌, arith,
}
use semantic_intelligence_la.Watcher.Cycle.Counting.{IsCounting, Counted, consider-Counted}

-- What a part of a round does to the tally, from t to t2, and to the number of the investigations
-- that were started, from n to n2: at most so many runs are counted as triggered, and one id is
-- listed for each; every run that is counted was started, and every one that was started and is not
-- counted has left an error; the runs that were started and the candidates that were skipped are
-- together no more than the candidates that are counted.
pub record IsCounted (most n n2 : ℕ) (t t2 : Tally) : Type 0 where
  pub few : t2.triggered ≤ t.triggered + most
  pub ids : length t2.triggered_run_ids + t.triggered ≡ length t.triggered_run_ids + t2.triggered
  pub counted : t2.triggered + n ≤ t.triggered + n2
  pub told : n2 + length t.errors + t.triggered ≤ n + length t2.errors + t2.triggered
  pub few_started : n2 + length t.errors ≤ n + most + length t2.errors
  pub shared : n2 + t2.skipped + t.candidates ≤ n + t.skipped + t2.candidates

module _ {S : Type 0} {W : Type 0} (get : S → Text → Result WatcherState)
    (upsert : S → WatcherState → S × Result (Unit {0}))
    (investigate : W → RunRequest → W × Returned) ⦃u : CharTables⦄ (f : Formats) (now : Time)
    (started : W → ℕ)
    (counts : (w : W) (request : RunRequest) → started (investigate w request).0 ≡ suc (started w))
    (n0 : ℕ) (t0 : Tally) where
  abbrev Tallied : ℕ → S × W × Tally → Type 0
  Tallied runs (states, w, t) = IsCounting n0 t0 runs 0 (started w) t

  IsCounting-finished :
      (runs left more n : ℕ) (t : Tally)
      → IsCounting n0 t0 runs more n t
      → IsCounting n0 t0 (runs + left) 0 n t
  IsCounting-finished runs left more n t c = record {
    ids = c.ids;
    few = let l = c.few in omega (arith, l);
    shared = let s = c.shared in omega (arith, s);
    counted = c.counted;
    told = c.told;
  }

  -- the rest of the loop, after one candidate
  next-Tallied :
      (cs : List Candidate) (left size runs : ℕ)
      → ((room n : ℕ) (states : S) (w : W) (t : Tally)
          → IsCounting n0 t0 n (length cs) (started w) t
          → Tallied
              (n + room)
              (run_candidates get upsert investigate f now cs room size (states, w, t)))
      → (x : Bool × (S × W × Tally))
      → Counted get upsert investigate f now started counts n0 t0 runs (length cs) x
      → Tallied
          (runs + suc left)
          (run_candidates get upsert investigate f now cs (if x.0 then left else suc left) size x.1)
  next-Tallied cs left size runs ih (true, (states, w, t)) c =
      let same : suc runs + left ≡ runs + suc left = omega arith in
      subst
        (λ n. Tallied n (run_candidates get upsert investigate f now cs left size (states, w, t)))
        same (ih left (suc runs) states w t c)
  next-Tallied cs left size runs ih (false, (states, w, t)) c = ih (suc left) runs states w t c

  run_candidates-Tallied :
      (cs : List Candidate) (left size runs : ℕ) (states : S) (w : W) (t : Tally)
      → IsCounting n0 t0 runs (length cs) (started w) t
      → Tallied
          (runs + left)
          (run_candidates get upsert investigate f now cs left size (states, w, t))
  unfolding run_candidates
  run_candidates-Tallied [] left size runs states w t c =
      IsCounting-finished runs left 0 (started w) t c
  run_candidates-Tallied (cand ∷ cs) zero size runs states w t c =
      IsCounting-finished runs 0 (suc (length cs)) (started w) t c
  run_candidates-Tallied (cand ∷ cs) (suc left) size runs states w t c =
      next-Tallied cs left size runs
        (λ room n states2 w2 t2 c2. run_candidates-Tallied cs room size n states2 w2 t2 c2)
        (consider get upsert investigate f now cand size (states, w, t))
        (consider-Counted get upsert investigate f now started counts n0 t0 runs (length cs) cand
          size states w t c)

  module _ (sessions : W → SessionStore.Query → Result (List Sessions.Event))
      (access : Option (W → AccessStore.Query → Result (List Access.Event))) (config : Config) where
    abbrev most : ℕ
    most = size_of config.max_runs_per_cycle

    IsCounting-count_candidates :
        (runs n : ℕ) (cs : List Candidate) (es : List Error) (t : Tally)
        → IsCounting n0 t0 runs 0 n t
        → IsCounting n0 t0 runs
            (length cs)
            n
            (count_candidates get upsert investigate f now sessions access config cs es t)
    IsCounting-count_candidates runs n cs es t c = record {
      ids = c.ids;
      few = c.few;
      shared = let s = c.shared in omega (arith, s);
      counted = c.counted;
      told =
          let s = c.told in
          omega (
            arith,
            s,
            length-append {0} t.errors
                (enrich_errors get upsert investigate f now sessions access config es),
          );
    }

    run_enriched-Tallied :
        (runs : ℕ) (x : List Candidate × List Error) (states : S) (w : W) (t : Tally)
        → IsCounting n0 t0 runs 0 (started w) t
        → Tallied
            (runs + most)
            (run_enriched get upsert investigate f now sessions access config x (states, w, t))
    run_enriched-Tallied runs (cs, es) states w t c =
        run_candidates-Tallied cs most (size_of config.window) runs states w _
          (IsCounting-count_candidates runs (started w) cs es t c)

    run_found-Tallied :
        (runs : ℕ) (tenant_id : Text) (found : Result (List Sessions.Event)) (states : S) (w : W)
        (t : Tally)
        → IsCounting n0 t0 runs 0 (started w) t
        → Tallied (runs + most) (
            run_found get upsert investigate f now sessions access config tenant_id found
              (states, w, t))
    run_found-Tallied runs tenant_id (err e) states w t c =
        IsCounting-finished runs most 0 (started w) (add_error (codes "search recent sessions") e t)
          (record {
            ids = c.ids;
            few = c.few;
            shared = c.shared;
            counted = c.counted;
            told =
                let s = c.told in
                omega (
                  arith,
                  s,
                  length-append {0} t.errors (wrapped (codes "search recent sessions") e ∷ []),
                );
          })
    run_found-Tallied runs tenant_id (ok events) states w t c =
        run_enriched-Tallied runs
          (enrich_candidates_with_access f
            (access_in get upsert investigate f now sessions access config w)
            (now - size_of config.window) now (detect_candidates config tenant_id events))
          states w t c

    run_tenant-Tallied :
        (runs : ℕ) (tenant_id : Text) (x : S × W × Tally)
        → Tallied runs x
        → Tallied
            (runs + most)
            (run_tenant get upsert investigate f now sessions access config tenant_id x)
    unfolding run_tenant
    run_tenant-Tallied runs tenant_id (states, w, t) c =
        run_found-Tallied runs tenant_id
          (sessions w (session_query get upsert investigate f now sessions access config tenant_id))
          states w t c

    run_tenants-Tallied :
        (tenants : List Text) (runs : ℕ) (x : S × W × Tally)
        → Tallied runs x
        → Tallied
            (runs + most * length tenants)
            (run_tenants get upsert investigate f now sessions access config tenants x)
    unfolding run_tenants
    run_tenants-Tallied [] runs (states, w, t) c =
        IsCounting-finished runs (most * 0) 0 (started w) t c
    run_tenants-Tallied (tenant ∷ tenants) runs x c =
        let next = run_tenant get upsert investigate f now sessions access config tenant x in
        let same : runs + most + most * length tenants ≡ runs + most * suc (length tenants) =
          omega (arith, mul-suc most (length tenants)) in
        subst
          (λ n.
            Tallied n
              (run_tenants get upsert investigate f now sessions access config tenants next))
          same (run_tenants-Tallied tenants (runs + most) next (run_tenant-Tallied runs tenant x c))

    IsCounted-of_Tallied :
        (total : ℕ) (x : S × W × Tally)
        → Tallied (0 + total) x
        → IsCounted total n0 (started x.1) t0 x.2
    IsCounted-of_Tallied total (states, w, t) c = record {
      few = let l = c.few in omega (arith, l);
      ids = c.ids;
      counted = c.counted;
      told = c.told;
      few_started = let l = c.few in let s = c.told in omega (arith, l, s);
      shared = let s = c.shared in omega (arith, s);
    }

-- the number of investigations that the harness was asked for is read by started
module _ {S : Type 0} {W : Type 0} (get : S → Text → Result WatcherState)
    (upsert : S → WatcherState → S × Result (Unit {0}))
    (investigate : W → RunRequest → W × Returned) ⦃u : CharTables⦄ (f : Formats) (now : Time)
    (started : W → ℕ)
    (counts : (w : W) (request : RunRequest) → started (investigate w request).0 ≡ suc (started w))
    (sessions : W → SessionStore.Query → Result (List Sessions.Event))
    (access : Option (W → AccessStore.Query → Result (List Access.Event))) (config : Config) where
  IsCounting-start : (n : ℕ) (t : Tally) → IsCounting n t 0 0 n t
  IsCounting-start n t = record {
    ids = omega arith;
    few = omega arith;
    shared = omega arith;
    counted = omega arith;
    told = omega arith;
  }

  -- Where started counts the calls of RunInvestigation, the part of a round that is about one
  -- tenant does the following, from any states and any tally, whatever the stores, the query
  -- services and the harness answer. It adds at most MaxRunsPerCycle to the count of the triggered
  -- runs, nothing where that is negative, and lists one run id for each run that it counts. It
  -- counts no more runs than it called RunInvestigation for, and its calls are together no more
  -- than the runs that it counts and the errors that it adds: there are at most MaxRunsPerCycle
  -- calls and one more for each error. The calls and the skipped candidates are together no more
  -- than the candidates that it counts.
  pub run_tenant-IsCounted :
      (tenant_id : Text) (states : S) (w : W) (t : Tally)
      → IsCounted
          (size_of config.max_runs_per_cycle)
          (started w)
          (started
            (run_tenant get upsert investigate f now sessions access config tenant_id
              (states, w, t)).1)
          t
          (run_tenant get upsert investigate f now sessions access config tenant_id
            (states, w, t)).2
  run_tenant-IsCounted tenant_id states w t =
      IsCounted-of_Tallied get upsert investigate f now started counts (started w) t sessions access
        config (size_of config.max_runs_per_cycle)
        (run_tenant get upsert investigate f now sessions access config tenant_id (states, w, t))
        (run_tenant-Tallied get upsert investigate f now started counts (started w) t sessions
          access config 0 tenant_id (states, w, t) (IsCounting-start (started w) t))

  -- the same of a round, which adds up what it does for each tenant of the configuration
  run_cycle-IsCounted :
      (states : S) (w : W)
      → IsCounted
          (size_of config.max_runs_per_cycle * length config.tenants)
          (started w)
          (started (run_cycle get upsert investigate f now sessions access config states w).1)
          (no_tally get upsert investigate f now sessions access config)
          (run_cycle get upsert investigate f now sessions access config states w).2
  unfolding run_cycle
  run_cycle-IsCounted states w =
      let t = no_tally get upsert investigate f now sessions access config in
      IsCounted-of_Tallied get upsert investigate f now started counts (started w) t sessions access
        config (size_of config.max_runs_per_cycle * length config.tenants)
        (run_tenants get upsert investigate f now sessions access config config.tenants
          (states, w, t))
        (run_tenants-Tallied get upsert investigate f now started counts (started w) t sessions
          access config config.tenants 0 (states, w, t) (IsCounting-start (started w) t))
