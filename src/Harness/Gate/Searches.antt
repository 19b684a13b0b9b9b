-- ===== src/Harness/Gate/Searches.antt =====
-- Every search keeps the decision that allows it, and so the acts gated.
use semantic_intelligence_la.Base.Dict.{Dict}
use semantic_intelligence_la.Agents.{Step}
use semantic_intelligence_la.Contracts.Access
use semantic_intelligence_la.Contracts.Sessions
use semantic_intelligence_la.AccessStore
use semantic_intelligence_la.SessionStore
use semantic_intelligence_la.Query.{
  search_evidence, search_network_access_events, search_network_sessions,
}
use semantic_intelligence_la.Query.Filters.{RetrievalQuery}
use semantic_intelligence_la.Harness.Queries.Laws.{AccessOfTenant, SessionsOfTenant}
use semantic_intelligence_la.Harness.Steps.{
  Act, Service, World, perform, searched_evidence, searched_access, searched_sessions, check,
  call_retrieval, call_access, call_sessions,
}
use semantic_intelligence_la.Harness.Phases.{
  gather_all_access, gather_all_sessions, search_access, search_sessions,
}
use semantic_intelligence_la.Harness.Gate.{
  latest_decision, Allows, Stopped, Post, goes_on, Post-continue, kept-Post,
}
use semantic_intelligence_la.Harness.Gate.Authorized.{Ready}
use semantic_intelligence_la.Harness.Evidence.{gather_access, gather_sessions}
use semantic_intelligence_la.Base.{
  is_empty, Text, codes, CharTables, join, Result, ℕ, ◌≡◌, refl, ◌∙◌, false, Option, none, some,
  List, [], ◌∷◌,
}

-- the three tools
abbrev pub retrieve_tool : Text
retrieve_tool = codes "retrieve.evidence.search"

abbrev pub access_tool : Text
access_tool = codes "query.access.search"

abbrev pub sessions_tool : Text
sessions_tool = codes "query.sessions.search"

pub stopped_of :
    {tool : Text} {tenant : Text} (step : Step)
    → is_empty step.id ≡ false
    → (acts : List Act) → Ready tool tenant acts
    → Stopped tenant step acts
stopped_of step has_id acts (allows, gated) = (has_id, gated)

-- the id of a step is not empty
pub join-is_empty :
    (sep : Text) (c : ℕ) (x : Text) (xs : List Text) → is_empty (join sep ((c ∷ x) ∷ xs)) ≡ false
unfolding join
join-is_empty sep c x [] = refl
join-is_empty sep c x (y ∷ xs) = refl

still_allowed :
    {tool : Text} {tenant : Text} (before after : List Act)
    → latest_decision after ≡ latest_decision before
    → Allows tool tenant before
    → Allows tool tenant after
still_allowed before after same allows = record {
  action = allows.action;
  decision = allows.decision;
  latest = same ∙ allows.latest;
  allowed = allows.allowed;
  named = allows.named;
  target = allows.target;
}

module _ (s : Service) ⦃u : CharTables⦄ (tenant : Text) where
  -- a search keeps the decision that allows it
  pub call_retrieval-Post :
      (step : Step) (has_id : is_empty step.id ≡ false) (q : RetrievalQuery) (w : World)
      → q.tenant_id ≡ tenant
      → Ready retrieve_tool tenant w.acts
      → Post (λ _. Ready retrieve_tool tenant) (Stopped tenant) (call_retrieval s step q w)
  unfolding call_retrieval
  call_retrieval-Post step has_id q w same (allows, gated) =
      let later = perform (searched_evidence q) w in
      kept-Post (Ready retrieve_tool tenant) (Stopped tenant) step
        (search_evidence (some (s.retrieval w.acts)) q) later
        (still_allowed w.acts later.acts refl allows, (same, allows, gated))
        (stopped_of step has_id)

  gather_all_access-Post :
      (store : List Act → AccessStore.Query → Result (List Access.Event)) (step : Step)
      (has_id : is_empty step.id ≡ false) (held : Dict Access.Event) (qs : List AccessStore.Query)
      (w : World)
      → AccessOfTenant tenant qs
      → Ready access_tool tenant w.acts
      → Post
          (λ _. Ready access_tool tenant)
          (Stopped tenant)
          (gather_all_access s store step held qs w)
  unfolding gather_all_access call_access
  gather_all_access-Post store step has_id held [] w all ready = goes_on ready
  gather_all_access-Post store step has_id held (q ∷ qs) w (same, all) (allows, gated) =
      let Kept : List Act → Type 0 = Ready access_tool tenant in
      let later = perform (searched_access q) w in
      let answer = search_network_access_events (some (store w.acts)) q in
      Post-continue (λ _. Kept) (λ _. Kept) (Stopped tenant) (check step answer later)
        (λ events. gather_all_access s store step (gather_access held events) qs)
        (kept-Post Kept (Stopped tenant) step answer later
          (still_allowed w.acts later.acts refl allows, (same, allows, gated))
          (stopped_of step has_id))
        (λ events w2 ready.
          gather_all_access-Post store step has_id (gather_access held events) qs w2 all ready)

  gather_all_sessions-Post :
      (store : List Act → SessionStore.Query → Result (List Sessions.Event)) (step : Step)
      (has_id : is_empty step.id ≡ false) (held : Dict Sessions.Event)
      (qs : List SessionStore.Query) (w : World)
      → SessionsOfTenant tenant qs
      → Ready sessions_tool tenant w.acts
      → Post
          (λ _. Ready sessions_tool tenant)
          (Stopped tenant)
          (gather_all_sessions s store step held qs w)
  unfolding gather_all_sessions call_sessions
  gather_all_sessions-Post store step has_id held [] w all ready = goes_on ready
  gather_all_sessions-Post store step has_id held (q ∷ qs) w (same, all) (allows, gated) =
      let Kept : List Act → Type 0 = Ready sessions_tool tenant in
      let later = perform (searched_sessions q) w in
      let answer = search_network_sessions (some (store w.acts)) q in
      Post-continue (λ _. Kept) (λ _. Kept) (Stopped tenant) (check step answer later)
        (λ events. gather_all_sessions s store step (gather_sessions held events) qs)
        (kept-Post Kept (Stopped tenant) step answer later
          (still_allowed w.acts later.acts refl allows, (same, allows, gated))
          (stopped_of step has_id))
        (λ events w2 ready.
          gather_all_sessions-Post store step has_id (gather_sessions held events) qs w2 all ready)

  pub search_access-Post :
      (stores : Option (List Act → AccessStore.Query → Result (List Access.Event))) (step : Step)
      (has_id : is_empty step.id ≡ false) (qs : List AccessStore.Query) (w : World)
      → AccessOfTenant tenant qs
      → Ready access_tool tenant w.acts
      → Post (λ _. Ready access_tool tenant) (Stopped tenant) (search_access s stores step qs w)
  unfolding search_access
  search_access-Post none step has_id qs w all ready = goes_on ready
  search_access-Post (some store) step has_id qs w all ready =
      Post-continue (λ _. Ready access_tool tenant) (λ _. Ready access_tool tenant) (Stopped tenant)
        (gather_all_access s store step [] qs w) _
        (gather_all_access-Post store step has_id [] qs w all ready)
        (λ held w2 ready2. goes_on ready2)

  pub search_sessions-Post :
      (stores : Option (List Act → SessionStore.Query → Result (List Sessions.Event))) (step : Step)
      (has_id : is_empty step.id ≡ false) (qs : List SessionStore.Query) (w : World)
      → SessionsOfTenant tenant qs
      → Ready sessions_tool tenant w.acts
      → Post (λ _. Ready sessions_tool tenant) (Stopped tenant) (search_sessions s stores step qs w)
  unfolding search_sessions
  search_sessions-Post none step has_id qs w all ready = goes_on ready
  search_sessions-Post (some store) step has_id qs w all ready =
      Post-continue (λ _. Ready sessions_tool tenant) (λ _. Ready sessions_tool tenant)
        (Stopped tenant) (gather_all_sessions s store step [] qs w) _
        (gather_all_sessions-Post store step has_id [] qs w all ready)
        (λ held w2 ready2. goes_on ready2)
