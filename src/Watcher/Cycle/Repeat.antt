-- ===== src/Watcher/Cycle/Repeat.antt =====
-- A run is triggered once for the last event of a subscriber.
use mathlib.Core.Path.{subst}
use semantic_intelligence_la.Base.Times.{Time}
use semantic_intelligence_la.Agents.{RunRequest}
use semantic_intelligence_la.Harness.Formats.{Formats}
use semantic_intelligence_la.Harness.Finish.{Returned}
use semantic_intelligence_la.WatcherStore.{WatcherState, normalize_watcher_state}
use semantic_intelligence_la.WatcherStore.Laws.{IsKept}
use semantic_intelligence_la.Watcher.Candidates.{Candidate}
use semantic_intelligence_la.Watcher.Requests.{watcher_state_key, build_run_request}
use semantic_intelligence_la.Watcher.Cycle.{
  Tally, is_not_found, run_id_of, run_error, count_skipped, new_state, after_upsert, after_run,
  trigger, after_load, consider,
}
use semantic_intelligence_la.Base.{
  Bool-cases, Text, CharTables, eq_text, trim_space, eq_text_refl, Error, Result, ok, err, ℕ, ◌≡◌,
  refl, inl, inr, Bool, true, false, Option, none, some,
}

module _ {S : Type 0} {W : Type 0} (get : S → Text → Result WatcherState)
    (upsert : S → WatcherState → S × Result (Unit {0}))
    (investigate : W → RunRequest → W × Returned) ⦃u : CharTables⦄ (f : Formats) (now : Time)
    (keeps : (states : S) (state : WatcherState) → IsKept get state (upsert states state))
    (c : Candidate) (plain : trim_space c.latest.event_id ≡ c.latest.event_id) where
  -- after a triggered run, the store knows the event
  abbrev Remembers : Bool × (S × W × Tally) → Type 0
  Remembers (false, cycle) = Unit
  Remembers (true, (states, w, t)) =
      (state : WatcherState) × (get states (watcher_state_key c.tenant_id c.subscriber) ≡ ok state)
      × (eq_text state.last_event_id c.latest.event_id ≡ true)

  after_upsert-Remembers :
      (id : Text) (w : W) (t : Tally) (stored : S × Result (Unit {0}))
      → IsKept get (new_state get upsert investigate f now c id) stored
      → Remembers (after_upsert get upsert investigate f now id w t stored)
  unfolding normalize_watcher_state
  after_upsert-Remembers id w t (states, err e) h = tt
  after_upsert-Remembers id w t (states, ok v) h = (
    normalize_watcher_state (new_state get upsert investigate f now c id),
    h,
    rw plain (eq_text_refl c.latest.event_id),
  )

  after_run-Remembers :
      (states : S) (t : Tally) (ran : W × Returned) (failed : Option Error)
      → Remembers (after_run get upsert investigate f now c states t ran failed)
  after_run-Remembers states t (w, r) (some e) = tt
  after_run-Remembers states t (w, r) none =
      let state = new_state get upsert investigate f now c (run_id_of r) in
      after_upsert-Remembers (run_id_of r) w t (upsert states state) (keeps states state)

  trigger-Remembers :
      (window : ℕ) (states : S) (w : W) (t : Tally)
      → Remembers (trigger get upsert investigate f now c window (states, w, t))
  unfolding trigger
  trigger-Remembers window states w t =
      let ran = investigate w (build_run_request f c now window) in
      after_run-Remembers states t ran (run_error ran.1)

  after_load-Remembers :
      (window : ℕ) (states : S) (w : W) (t : Tally) (loaded : Result WatcherState)
      → Remembers (after_load get upsert investigate f now c window (states, w, t) loaded)
  after_load-Remembers window states w t (ok state) =
      elim (Bool-cases (eq_text state.last_event_id c.latest.event_id)) [
        | inl e ↦ rw e tt
        | inr e ↦ rw e (trigger-Remembers window states w t)
      ]
  after_load-Remembers window states w t (err x) = elim (Bool-cases (is_not_found x)) [
    | inl e ↦ rw e (trigger-Remembers window states w t)
    | inr e ↦ rw e tt
  ]

  consider-Remembers :
      (window : ℕ) (states : S) (w : W) (t : Tally)
      → Remembers (consider get upsert investigate f now c window (states, w, t))
  unfolding consider
  consider-Remembers window states w t =
      after_load-Remembers window states w t
        (get states (watcher_state_key c.tenant_id c.subscriber))

  remembered-skips :
      (window : ℕ) (states : S) (w : W) (t : Tally)
      → Remembers (true, (states, w, t))
      → consider get upsert investigate f now c window (states, w, t)
        ≡ (false, (states, w, count_skipped t))
  unfolding consider
  remembered-skips window states w t (state, found, same) = rw (found, same) refl

  -- Let the store keep what an upsert that answers ok was given, and let the id of the
  -- candidate's latest event have no space around it. If a run was triggered for the candidate,
  -- then the candidate, considered again, is skipped: no run is started, and the store and the
  -- harness stay as they are.
  pub consider-skips_again :
      (window later : ℕ) (states next : S) (w w2 : W) (t t2 : Tally)
      → consider get upsert investigate f now c window (states, w, t) ≡ (true, (next, w2, t2))
      → consider get upsert investigate f now c later (next, w2, t2)
        ≡ (false, (next, w2, count_skipped t2))
  consider-skips_again window later states next w w2 t t2 h =
      remembered-skips later next w2 t2
        (subst (λ x. Remembers x) h (consider-Remembers window states w t))
