-- ===== src/Watcher/Cycle/Counting.antt =====
-- What one candidate does to the counts of a round.
use semantic_intelligence_la.Base.Times.{Time}
use semantic_intelligence_la.Agents.{RunRequest}
use semantic_intelligence_la.Harness.Formats.{Formats}
use semantic_intelligence_la.Harness.Finish.{Returned}
use semantic_intelligence_la.WatcherStore.{WatcherState}
use semantic_intelligence_la.Watcher.Candidates.{Candidate}
use semantic_intelligence_la.Watcher.Requests.{watcher_state_key, build_run_request}
use semantic_intelligence_la.Watcher.Cycle.{
  Tally, is_not_found, run_id_of, run_error, add_error, count_skipped, count_triggered,
  after_upsert, after_run, trigger, after_load, consider,
}
use semantic_intelligence_la.Base.{
  if◌then◌else◌, Bool-cases, length, length-append, Text, codes, CharTables, eq_text, Error,
  wrapped, Result, ok, err, ℕ, suc, ◌+◌, ◌≤◌, ◌≡◌, inl, inr, Bool, Option, none, some, [], ◌∷◌,
  arith,
}

-- The counts of a tally, beside those of the tally t0 and the number n0 of the runs that were
-- started when it was the tally: so many candidates are still to come, at most so many runs were
-- triggered, and n is the number of the runs that are started by now.
pub record IsCounting (n0 : ℕ) (t0 : Tally) (runs more n : ℕ) (t : Tally) : Type 0 where
  pub ids : length t.triggered_run_ids + t0.triggered ≡ length t0.triggered_run_ids + t.triggered
  pub few : t.triggered ≤ t0.triggered + runs
  pub shared : n + t.skipped + more + t0.candidates ≤ n0 + t0.skipped + t.candidates
  pub counted : t.triggered + n0 ≤ t0.triggered + n
  pub told : n + length t0.errors + t0.triggered ≤ n0 + length t.errors + t.triggered

abbrev pub runs_after : Bool → ℕ → ℕ
runs_after triggered runs = if triggered then suc runs else runs

module _ (n0 : ℕ) (t0 : Tally) where
  -- what one candidate does to the counts: an error with no run, a run with an error, a candidate
  -- that is skipped, and a run that is counted
  errored :
      (runs more n : ℕ) (what : Text) (e : Error) (t : Tally)
      → IsCounting n0 t0 runs (suc more) n t
      → IsCounting n0 t0 runs more n (add_error what e t)
  errored runs more n what e t c = record {
    ids = c.ids;
    few = c.few;
    shared = let s = c.shared in omega (arith, s);
    counted = c.counted;
    told = let s = c.told in omega (arith, s, length-append {0} t.errors (wrapped what e ∷ []));
  }

  failed_one :
      (runs more n : ℕ) (what : Text) (e : Error) (t : Tally)
      → IsCounting n0 t0 runs (suc more) n t
      → IsCounting n0 t0 runs more (suc n) (add_error what e t)
  failed_one runs more n what e t c = record {
    ids = c.ids;
    few = c.few;
    shared = let s = c.shared in omega (arith, s);
    counted = let s = c.counted in omega (arith, s);
    told = let s = c.told in omega (arith, s, length-append {0} t.errors (wrapped what e ∷ []));
  }

  skipped_one :
      (runs more n : ℕ) (t : Tally)
      → IsCounting n0 t0 runs (suc more) n t
      → IsCounting n0 t0 runs more n (count_skipped t)
  skipped_one runs more n t c = record {
    ids = c.ids;
    few = c.few;
    shared = let s = c.shared in omega (arith, s);
    counted = c.counted;
    told = c.told;
  }

  triggered_one :
      (runs more n : ℕ) (id : Text) (t : Tally)
      → IsCounting n0 t0 runs (suc more) n t
      → IsCounting n0 t0 (suc runs) more (suc n) (count_triggered id t)
  triggered_one runs more n id t c = record {
    ids = let i = c.ids in omega (arith, i, length-append {0} t.triggered_run_ids (id ∷ []));
    few = let l = c.few in omega (arith, l);
    shared = let s = c.shared in omega (arith, s);
    counted = let s = c.counted in omega (arith, s);
    told = let s = c.told in omega (arith, s);
  }

-- started counts the investigations that the harness was asked for
module _ {S : Type 0} {W : Type 0} (get : S → Text → Result WatcherState)
    (upsert : S → WatcherState → S × Result (Unit {0}))
    (investigate : W → RunRequest → W × Returned) ⦃u : CharTables⦄ (f : Formats) (now : Time)
    (started : W → ℕ)
    (counts : (w : W) (request : RunRequest) → started (investigate w request).0 ≡ suc (started w))
    (n0 : ℕ) (t0 : Tally) where
  abbrev pub Counted : ℕ → ℕ → Bool × (S × W × Tally) → Type 0
  Counted runs more (b, (states, w, t)) = IsCounting n0 t0 (runs_after b runs) more (started w) t

  after_upsert-Counted :
      (runs more n : ℕ) (id : Text) (w : W) (t : Tally) (stored : S × Result (Unit {0}))
      → started w ≡ suc n
      → IsCounting n0 t0 runs (suc more) n t
      → Counted runs more (after_upsert get upsert investigate f now id w t stored)
  after_upsert-Counted runs more n id w t (states, err e) one c =
      rw one (failed_one n0 t0 runs more n (codes "store watcher state") e t c)
  after_upsert-Counted runs more n id w t (states, ok v) one c =
      rw one (triggered_one n0 t0 runs more n id t c)

  after_run-Counted :
      (runs more n : ℕ) (cand : Candidate) (states : S) (t : Tally) (ran : W × Returned)
      (failed : Option Error)
      → started ran.0 ≡ suc n
      → IsCounting n0 t0 runs (suc more) n t
      → Counted runs more (after_run get upsert investigate f now cand states t ran failed)
  after_run-Counted runs more n cand states t (w, r) (some e) one c =
      rw one (failed_one n0 t0 runs more n (codes "trigger investigation") e t c)
  after_run-Counted runs more n cand states t (w, r) none one c =
      after_upsert-Counted runs more n (run_id_of r) w t _ one c

  trigger-Counted :
      (runs more : ℕ) (cand : Candidate) (size : ℕ) (states : S) (w : W) (t : Tally)
      → IsCounting n0 t0 runs (suc more) (started w) t
      → Counted runs more (trigger get upsert investigate f now cand size (states, w, t))
  unfolding trigger
  trigger-Counted runs more cand size states w t c =
      let request = build_run_request f cand now size in
      let ran = investigate w request in
      after_run-Counted runs more (started w) cand states t ran (run_error ran.1) (counts w request)
        c

  after_load-Counted :
      (runs more : ℕ) (cand : Candidate) (size : ℕ) (states : S) (w : W) (t : Tally)
      (loaded : Result WatcherState)
      → IsCounting n0 t0 runs (suc more) (started w) t
      → Counted runs more (after_load get upsert investigate f now cand size (states, w, t) loaded)
  after_load-Counted runs more cand size states w t (ok state) c =
      elim (Bool-cases (eq_text state.last_event_id cand.latest.event_id)) [
        | inl e ↦ rw e (skipped_one n0 t0 runs more (started w) t c)
        | inr e ↦ rw e (trigger-Counted runs more cand size states w t c)
      ]
  after_load-Counted runs more cand size states w t (err x) c = elim (Bool-cases (is_not_found x)) [
    | inl e ↦ rw e (trigger-Counted runs more cand size states w t c)
    | inr e ↦ rw e (errored n0 t0 runs more (started w) (codes "load watcher state") x t c)
  ]

  pub consider-Counted :
      (runs more : ℕ) (cand : Candidate) (size : ℕ) (states : S) (w : W) (t : Tally)
      → IsCounting n0 t0 runs (suc more) (started w) t
      → Counted runs more (consider get upsert investigate f now cand size (states, w, t))
  unfolding consider
  consider-Counted runs more cand size states w t c =
      after_load-Counted runs more cand size states w t
        (get states (watcher_state_key cand.tenant_id cand.subscriber)) c
