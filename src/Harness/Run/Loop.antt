-- ===== src/Harness/Run/Loop.antt =====
-- The loop over the phases, and the summary.
use semantic_intelligence_la.Base.Times.{Time}
use semantic_intelligence_la.Agents.{Step, StepStatus, RunRequest}
use semantic_intelligence_la.RunStore.Records.{Record}
use semantic_intelligence_la.Contracts.Retrieval.{Hit}
use semantic_intelligence_la.Contracts.Access
use semantic_intelligence_la.Contracts.Sessions
use semantic_intelligence_la.Harness.Plan.{Phase, retrieve, access, sessions}
use semantic_intelligence_la.Harness.Steps.{
  Act, saved, Service, World, Outcome, done, stopped, now, continue, finish, ◌>>=◌,
}
use semantic_intelligence_la.Harness.Phases.{
  run_retrieval_step, run_access_step, run_session_step, run_summary_step,
}
use semantic_intelligence_la.Harness.Run.{
  Progress, with_step, steps_of, with_summary, evidence_budget, completed_at, run_phase, run_phases,
  after_save, after_phase, Looped,
}
use semantic_intelligence_la.Harness.Finish.{save}
use semantic_intelligence_la.Harness.Gate.{IsGated, Stopped, Post, goes_on, ends, Post-continue}
use semantic_intelligence_la.Harness.Gate.Phases.{
  Completed, run_retrieval_step-Post, run_access_step-Post, run_session_step-Post,
  run_summary_step-Post,
}
use semantic_intelligence_la.Harness.Run.Endings.{
  IsCompleted, EndsGated, finish_run_with_error-EndsGated,
}
use mathlib.Core.Path.{subst}
use semantic_intelligence_la.Base.{
  ltb→lt, Bool-cases, Option-cases, length, All, length-append, All-append, Text, CharTables, Error,
  ℕ, zero, suc, ◌+◌, ◌≤◌, ◌<◌, ◌≡◌, refl, sym, inl, inr, true, Option, none, some, List, [], ◌∷◌,
  arith,
}

-- what holds of a record between two steps, of which so many are done
pub record IsUnderWay (tenant : Text) (n : ℕ) (r : Record) (acts : List Act) : Type 0 where
  pub of_tenant : r.run.tenant_id ≡ tenant
  pub completed : All IsCompleted r.steps
  pub count : length r.steps ≤ n
  pub gated : IsGated tenant acts

pub completed_at-Post :
    (s : Service) (I : List Act → Type 0) (R : Step → List Act → Type 0) (step : Step) (w : World)
    → I w.acts
    → Post (λ _. I) R (completed_at s step w)
unfolding completed_at now
completed_at-Post s I R step w i = elim (Option-cases step.completed_at) [
  | inl p ↦ rw p (goes_on i)
  | inr (t, p) ↦ rw p (goes_on i)
]

with_step-IsUnderWay :
    (tenant : Text) (n : ℕ) (r : Record) (step : Step) (at : Time) (before acts : List Act)
    → IsUnderWay tenant n r before
    → step.status ≡ StepStatus.completed
    → IsGated tenant acts
    → IsUnderWay tenant (suc n) (with_step r step at) acts
with_step-IsUnderWay tenant n r step at before acts u ended gated = record {
  of_tenant = u.of_tenant;
  completed = All-append IsCompleted r.steps (step ∷ []) u.completed (ended, tt);
  count = let few = u.count in omega (arith, few, length-append {0} r.steps (step ∷ []));
  gated = gated;
}

module _ (s : Service) ⦃u : CharTables⦄ (request : RunRequest) where
  abbrev pub UnderWay : ℕ → Progress → List Act → Type 0
  UnderWay n p acts = IsUnderWay request.tenant_id n p.record_so_far acts

  -- the end of a phase, once its step has run
  appended-Post :
      {A : Type 0} (n : ℕ) (p : Progress) (before : List Act) (x : Outcome (A × Step))
      (next : A → Step → Time → Progress)
      → ((a : A) (step : Step) (at : Time)
          → (next a step at).record_so_far ≡ with_step p.record_so_far step at)
      → UnderWay n p before
      → Post (Completed request.tenant_id) (Stopped request.tenant_id) x
      → Post
          (UnderWay (suc n))
          (Stopped request.tenant_id)
          (continue (λ (a, step). completed_at s step >>= λ at. finish (next a step at)) x)
  appended-Post n p before x next same under ran =
      let tenant = request.tenant_id in
      Post-continue (Completed tenant) (UnderWay (suc n)) (Stopped tenant) _ _ ran
        (λ (a, step) w2 (ended, gated2).
          Post-continue (λ _. IsGated tenant) (UnderWay (suc n)) (Stopped tenant) _ _
            (completed_at-Post s (IsGated tenant) (Stopped tenant) step w2 gated2)
            (λ at w3 gated3. goes_on (
              subst (λ r. IsUnderWay tenant (suc n) r w3.acts) (sym (same a step at))
                (with_step-IsUnderWay tenant n p.record_so_far step at before w3.acts under ended
                  gated3))))

  IsGated-own_tenant :
      (n : ℕ) (p : Progress) (acts : List Act)
      → UnderWay n p acts
      → IsGated p.record_so_far.run.tenant_id acts
  IsGated-own_tenant n p acts under = subst (λ t. IsGated t acts) (sym under.of_tenant) under.gated

  run_phase-Post :
      (phase : Phase) (n : ℕ) (p : Progress) (w : World)
      → UnderWay n p w.acts
      → Post (UnderWay (suc n)) (Stopped request.tenant_id) (run_phase s request phase p w)
  unfolding run_phase
  run_phase-Post retrieve n p w under =
      let r = p.record_so_far in
      appended-Post n p w.acts (run_retrieval_step s r request w) _ (λ a step at. refl) under
        (subst
          (λ t. Post (Completed {A = List Hit} t) (Stopped t) (run_retrieval_step s r request w))
          under.of_tenant
          (run_retrieval_step-Post s r request under.of_tenant w
            (IsGated-own_tenant n p w.acts under)))
  run_phase-Post access n p w under =
      let r = p.record_so_far in
      appended-Post n p w.acts (run_access_step s r request p.hits w) _ (λ a step at. refl) under
        (subst
          (λ t.
            Post (Completed {A = List Access.Event} t) (Stopped t)
              (run_access_step s r request p.hits w))
          under.of_tenant
          (run_access_step-Post s r request under.of_tenant p.hits w
            (IsGated-own_tenant n p w.acts under)))
  run_phase-Post sessions n p w under =
      let r = p.record_so_far in
      appended-Post n p w.acts (run_session_step s r request p.hits w) _ (λ a step at. refl) under
        (subst
          (λ t.
            Post (Completed {A = List Sessions.Event} t) (Stopped t)
              (run_session_step s r request p.hits w))
          under.of_tenant
          (run_session_step-Post s r request under.of_tenant p.hits w
            (IsGated-own_tenant n p w.acts under)))

  -- the loop ends with at most `budget` steps, or the run ends with at most `most`
  abbrev pub LoopEnds : ℕ → ℕ → Looped → Type 0
  LoopEnds budget most (w, inl p) = UnderWay budget p w.acts
  LoopEnds budget most (w, inr r) = EndsGated s request.tenant_id most (w, r)

  saved-LoopEnds :
      (total most n : ℕ) (p : Progress) (w : World) (go : Progress → World → Looped)
      (answer : Option Error)
      → s.upsert w.acts p.record_so_far ≡ answer
      → UnderWay n p w.acts
      → n ≤ most
      → ((w2 : World) → UnderWay n p w2.acts → LoopEnds total most (go p w2))
      → LoopEnds total most
          (after_save s go p (record w { acts = saved p.record_so_far answer ∷ w.acts }, answer))
  saved-LoopEnds total most n p w go none told under few h =
      h (record w { acts = saved p.record_so_far none ∷ w.acts })
        (record {
          of_tenant = under.of_tenant;
          completed = under.completed;
          count = under.count;
          gated = under.gated;
        })
  saved-LoopEnds total most n p w go (some e) told under few h =
      let count = under.count in
      (under.gated, (inl (w.acts, refl, told), omega (arith, count, few)))

  after_save-LoopEnds :
      (total most n : ℕ) (p : Progress) (w : World) (go : Progress → World → Looped)
      → UnderWay n p w.acts
      → n ≤ most
      → ((w2 : World) → UnderWay n p w2.acts → LoopEnds total most (go p w2))
      → LoopEnds total most (after_save s go p (save s p.record_so_far w))
  unfolding save
  after_save-LoopEnds total most n p w go under few h =
      saved-LoopEnds total most n p w go (s.upsert w.acts p.record_so_far) refl under few h

  after_phase-LoopEnds :
      (total most n : ℕ) (p : Progress) (x : Outcome Progress) (go : Progress → World → Looped)
      (before : List Act)
      → UnderWay n p before
      → Post (UnderWay (suc n)) (Stopped request.tenant_id) x
      → n < most
      → ((q : Progress) (w2 : World) → UnderWay (suc n) q w2.acts → LoopEnds total most (go q w2))
      → LoopEnds total most (after_phase s go p x)
  after_phase-LoopEnds total most n p (done q w) go before under (goes_on ran) few h =
      after_save-LoopEnds total most (suc n) q w go ran (omega (arith, few)) (h q)
  after_phase-LoopEnds total most n p (stopped step e w) go before under (ends halted) few h =
      let count = under.count in
      finish_run_with_error-EndsGated s request.tenant_id most p.record_so_far step e w halted
        under.completed (omega (arith, count, few))

  weaker :
      (n more : ℕ) (p : Progress) (acts : List Act) → UnderWay n p acts → UnderWay (n + more) p acts
  weaker n more p acts under = record {
    of_tenant = under.of_tenant;
    completed = under.completed;
    count = let few = under.count in omega (arith, few);
    gated = under.gated;
  }

  pub run_phases-LoopEnds :
      (most : ℕ) (phases : List Phase) (budget n : ℕ) (p : Progress) (w : World)
      → UnderWay n p w.acts
      → n + budget ≤ most
      → LoopEnds (n + budget) most (run_phases s request phases budget p w)
  unfolding run_phases
  run_phases-LoopEnds most [] budget n p w under few = weaker n budget p w.acts under
  run_phases-LoopEnds most (phase ∷ phases) zero n p w under few = weaker n zero p w.acts under
  run_phases-LoopEnds most (phase ∷ phases) (suc budget) n p w under few =
      after_phase-LoopEnds (n + suc budget) most n p (run_phase s request phase p w)
        (run_phases s request phases budget) w.acts under (run_phase-Post phase n p w under)
        (omega (arith, few))
        (λ q w2 under2.
          let same : suc n + budget ≡ n + suc budget = omega arith in
          subst (λ k. LoopEnds k most (run_phases s request phases budget q w2)) same
            (run_phases-LoopEnds most phases budget (suc n) q w2 under2 (omega (arith, few))))

  -- the summary takes the one step that the budget leaves
  pub evidence_budget-with_summary :
      with_summary request ≡ true → suc (evidence_budget request) ≡ steps_of request.max_steps
  evidence_budget-with_summary e = rw e (let more = ltb→lt _ _ e in omega (arith, more))

  pub evidence_budget_le : evidence_budget request ≤ steps_of request.max_steps
  evidence_budget_le = elim (Bool-cases (with_summary request)) [
    | inl e ↦ rw e (omega arith)
    | inr e ↦ rw e (omega arith)
  ]

  abbrev pub Summarized : Record → List Act → Type 0
  Summarized r acts = IsUnderWay request.tenant_id (steps_of request.max_steps) r acts

  pub summed-Post :
      (p : Progress) (w : World)
      → UnderWay (evidence_budget request) p w.acts
      → with_summary request ≡ true
      → Post Summarized (Stopped request.tenant_id) (
          continue
            (λ step. completed_at s step >>= λ at. finish (with_step p.record_so_far step at))
            (run_summary_step s p.record_so_far request p.hits p.access_events p.session_events w))
  summed-Post p w under e =
      let tenant = request.tenant_id in
      let r = p.record_so_far in
      let ran =
        subst
          (λ t.
            Post (λ (step : Step) acts. (step.status ≡ StepStatus.completed) × IsGated t acts)
              (Stopped t) (run_summary_step s r request p.hits p.access_events p.session_events w))
          under.of_tenant
          (run_summary_step-Post s r request under.of_tenant p.hits p.access_events p.session_events
            w (IsGated-own_tenant (evidence_budget request) p w.acts under)) in
      Post-continue
        (λ (step : Step) acts. (step.status ≡ StepStatus.completed) × IsGated tenant acts)
        Summarized (Stopped tenant) _ _ ran
        (λ step w2 (ended, gated2).
          Post-continue (λ _. IsGated tenant) Summarized (Stopped tenant) _ _
            (completed_at-Post s (IsGated tenant) (Stopped tenant) step w2 gated2)
            (λ at w3 gated3. goes_on (
              subst (λ k. IsUnderWay tenant k (with_step r step at) w3.acts)
                (evidence_budget-with_summary e)
                (with_step-IsUnderWay tenant (evidence_budget request) r step at w.acts w3.acts
                  under ended gated3))))
