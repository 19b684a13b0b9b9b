-- ===== src/Harness/Requests/Laws.antt =====
-- What every accepted request has.
use semantic_intelligence_la.Base.Times.{Time, ℤ, pos, negsuc}
use semantic_intelligence_la.Base.Dict.{Dict, insert, lookup-insert_self}
use semantic_intelligence_la.Agents.{RunRequest}
use semantic_intelligence_la.Harness.Formats.{Formats}
use semantic_intelligence_la.Harness.Plan.{input, key_query, key_subscriber_id, text_or_empty}
use semantic_intelligence_la.Harness.Requests.{
  normalize_request, accepted_request, bounded_steps, clone_inputs, compose_id, goal_or_query,
  with_query, with_bounded_query,
}
use semantic_intelligence_la.Base.{
  if◌then◌else◌, Bool-cases, is_empty, Text, CharTables, trim_left, trim_right, trim_func,
  trim_space, is_blank, join, ok, fail_if, Meets, fail_if-Meets, Meets-then, Meets-eq-ok, ℕ, zero,
  suc, ◌≤◌, ◌≡◌, refl, ap, inl, inr, false, ◌&&◌, List, [], ◌∷◌, arith,
}
use semantic_intelligence_la.Harness.Goals.{rewrite_bounded_question_query}

abbrev IsFilled : Text → Type 0
IsFilled value = is_empty value ≡ false

-- a request that the harness can run
pub record IsRunnable (request : RunRequest) : Type 0 where
  pub tenant : IsFilled request.tenant_id
  pub goal : IsFilled request.goal
  pub session : IsFilled request.session_id
  pub query : IsFilled (input key_query request.inputs)
  pub steps : (n : ℕ) × (request.max_steps ≡ pos n) × (1 ≤ n) × (n ≤ 5)

bounded_steps-bounds : (n : ℤ) → (1 ≤ bounded_steps n) × (bounded_steps n ≤ 5)
unfolding bounded_steps
bounded_steps-bounds (negsuc n) = (omega arith, omega arith)
bounded_steps-bounds (pos zero) = (omega arith, omega arith)
bounded_steps-bounds (pos (suc n)) = ground arith

goal_or_query-IsFilled :
    (goal query : Text)
    → is_empty goal && is_empty query ≡ false
    → IsFilled (goal_or_query goal query)
goal_or_query-IsFilled goal query h = ground arith

-- join keeps a first part that is not empty
join-IsFilled :
    (sep : Text) (c : ℕ) (x : Text) (xs : List Text) → IsFilled (join sep ((c ∷ x) ∷ xs))
unfolding join
join-IsFilled sep c x [] = refl
join-IsFilled sep c x (y ∷ xs) = refl

is_blank-nil : (v : Text) → is_blank v ≡ false → IsFilled v
unfolding is_blank trim_space trim_func trim_left trim_right
is_blank-nil [] h = cc
is_blank-nil (c ∷ v) h = refl

input-insert : (v : Text) (d : Dict Text) → input key_query (insert key_query v d) ≡ v
input-insert v d = ap text_or_empty (lookup-insert_self key_query v d)

module _ ⦃u : CharTables⦄ where
  with_query-IsFilled :
      (goal : Text) (inputs : Dict Text)
      → IsFilled goal
      → IsFilled (input key_query (with_query goal inputs))
  with_query-IsFilled goal inputs filled = elim (Bool-cases (is_blank (input key_query inputs))) [
    | inl e ↦ rw (e, input-insert goal inputs) filled
    | inr e ↦ rw e (is_blank-nil (input key_query inputs) e)
  ]

  with_bounded_query-IsFilled :
      (goal : Text) (inputs : Dict Text)
      → IsFilled (input key_query inputs)
      → IsFilled (input key_query (with_bounded_query goal inputs))
  with_bounded_query-IsFilled goal inputs filled =
      let bounded =
        rewrite_bounded_question_query goal (input key_query inputs)
          (input key_subscriber_id inputs) in
      elim (Bool-cases (is_empty bounded)) [
        | inl e ↦ rw e filled
        | inr e ↦ rw (e, input-insert bounded inputs) e
      ]

  session-IsFilled :
      (session made : Text) → IsFilled made → IsFilled (if is_empty session then made else session)
  session-IsFilled session made filled = ground arith

  -- what normalizeRequest makes of values that pass its tests
  accepted-IsRunnable :
      (f : Formats) (now : Time) (request : RunRequest) (query : Text)
      → is_blank request.goal && is_empty query ≡ false
      → is_blank request.tenant_id ≡ false
      → IsRunnable (accepted_request f now request query)
  unfolding is_blank compose_id
  accepted-IsRunnable f now request query asked of_tenant =
      let goal_filled = goal_or_query-IsFilled (trim_space request.goal) query asked in
      record {
        tenant = of_tenant;
        goal = goal_filled;
        session = session-IsFilled (trim_space request.session_id) _ (join-IsFilled _ _ _ _);
        query =
            with_bounded_query-IsFilled _ _
              (with_query-IsFilled _ (clone_inputs request.inputs) goal_filled);
        steps = (
          bounded_steps request.max_steps,
          refl,
          (bounded_steps-bounds request.max_steps).0,
          (bounded_steps-bounds request.max_steps).1,
        );
      }

  normalize_request-Meets :
      (f : Formats) (now : Time) (request : RunRequest)
      → Meets IsRunnable (normalize_request f now request)
  unfolding normalize_request
  normalize_request-Meets f now request =
      let query = trim_space (input key_query (clone_inputs request.inputs)) in
      let blank = is_blank request.goal && is_empty query in
      let no_tenant = is_blank request.tenant_id in
      Meets-then (λ _. blank ≡ false) IsRunnable (fail_if blank _) _ (fail_if-Meets blank _)
        (λ _ asked.
          Meets-then (λ _. no_tenant ≡ false) IsRunnable (fail_if no_tenant _) _
            (fail_if-Meets no_tenant _)
            (λ _ of_tenant. accepted-IsRunnable f now request query asked of_tenant))

  -- A request that normalizeRequest returns has a tenant, a goal, a session id and an input
  -- `query`, none of them empty, and its MaxSteps is from 1 to 5.
  pub normalize_request-IsRunnable :
      (f : Formats) (now : Time) (request accepted : RunRequest)
      → normalize_request f now request ≡ ok accepted
      → IsRunnable accepted
  normalize_request-IsRunnable f now request accepted h =
      Meets-eq-ok IsRunnable (normalize_request f now request) accepted
        (normalize_request-Meets f now request) h
