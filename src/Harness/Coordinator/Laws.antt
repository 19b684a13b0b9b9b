-- ===== src/Harness/Coordinator/Laws.antt =====
-- A harness whose runs are kept in the memory store of internal/storage/metadata/agents: what it
-- returns is what its store holds.
use mathlib.Core.Path.{subst}
use semantic_intelligence_la.Agents.{Run, Step, RunRequest, RunStatus}
use semantic_intelligence_la.RunStore.Records.{
  Record, clone_record, normalize_record, normalize_run, validate_record, validate_run,
}
use semantic_intelligence_la.RunStore.Normal.{clone_record-normalize_record}
use semantic_intelligence_la.RunStore.Backends.{
  MemoryStore, accept, memory_upsert, accept_id, memory_get,
}
use semantic_intelligence_la.Storage.JsonLines.{background}
use semantic_intelligence_la.Base.Dict.{lookup, lookup-insert_self}
use semantic_intelligence_la.Harness.Requests.{normalize_request}
use semantic_intelligence_la.Harness.Steps.{Act, saved, Service, World}
use semantic_intelligence_la.Harness.Finish.{
  Returned, refused, returned, joined, is_approval_required,
}
use semantic_intelligence_la.Harness.Run.{run_investigation, steps_of}
use semantic_intelligence_la.Harness.Run.Endings.{SavedLast, StoppedBy, Ended}
use semantic_intelligence_la.Harness.Run.Laws.{run_investigation-Ended}
use semantic_intelligence_la.Harness.Coordinator.{start_run, continue_run, run_of, errors_of}
use semantic_intelligence_la.Base.{
  is_empty, codes, CharTables, trim_space, is_blank, Error, required, Result, ok, err, fail_if,
  Result-cases, Meets, fail_if-Meets, Meets-then, Meets-eq-ok, Meets-const, is_blank-trim_space, ℕ,
  ◌≡◌, refl, sym, ap, ◌∙◌, ◌≢◌, ◌⊎◌, inl, inr, true, false, Option, none, some, List, [], ◌∷◌,
}

-- the memory store after the acts, the latest of which is the first
unfoldable pub runs_after : List Act → MemoryStore
unfolding memory_upsert
runs_after [] = []
runs_after (saved r answer ∷ acts) = (memory_upsert background (runs_after acts) r).0
runs_after (act ∷ acts) = runs_after acts

abbrev pub error_of : Result (Unit {0}) → Option Error
error_of (ok u) = none
error_of (err e) = some e

abbrev pub memory_answer : List Act → Record → Option Error
memory_answer acts r = error_of (memory_upsert background (runs_after acts) r).1

abbrev pub on_memory : Service → Service
on_memory s = record s { upsert = memory_answer }

validate_run-id : (run : Run) → Meets (λ _. is_blank run.id ≡ false) (validate_run run)
unfolding validate_run
validate_run-id run =
    Meets-then (λ _. is_blank run.id ≡ false) _
      (fail_if (is_blank run.id) (required (codes "run.id"))) _
      (fail_if-Meets (is_blank run.id) (required (codes "run.id")))
      (λ _ named. Meets-const (is_blank run.id ≡ false) _ named)

validate_record-id : (r : Record) → validate_record r ≡ ok tt → is_blank r.run.id ≡ false
unfolding validate_record
validate_record-id r h =
    let Named : Unit {0} → Type 0 = λ _. is_blank r.run.id ≡ false in
    Meets-eq-ok Named (validate_record r) tt
      (Meets-then Named Named (validate_run r.run) _ (validate_run-id r.run)
        (λ _ named. Meets-const (is_blank r.run.id ≡ false) _ named))
      h

-- an accepted upsert leaves the normal form of the record for a Get of its id
memory_get-upsert :
    (store : MemoryStore) (r : Record)
    → error_of (memory_upsert background store r).1 ≡ none
    → memory_get background (memory_upsert background store r).0 r.run.id ≡ ok (normalize_record r)
unfolding memory_upsert memory_get accept accept_id is_blank lookup normalize_record
memory_get-upsert store r h = elim (Result-cases (validate_record (normalize_record r))) [
  | inl (u, e) ↦
      let key : (normalize_record r).run.id ≡ trim_space r.run.id =
        unfold normalize_record normalize_run in refl in
      let named : is_empty (trim_space r.run.id) ≡ false =
        sym (is_blank-trim_space r.run.id)
        ∙ ap is_blank (sym key)
        ∙ validate_record-id (normalize_record r) e in
      rw
        (
          named,
          e,
          key,
          lookup-insert_self (trim_space r.run.id) (clone_record (normalize_record r)) store,
          clone_record-normalize_record r,
          clone_record-normalize_record r,
        )
        refl
  | inr (x, e) ↦
      let refused : error_of (memory_upsert background store r).1 ≡ some x = rw e refl in
      absurd (let distinct : some x ≢ none = λ p. cc in distinct (sym refused ∙ h))
]

-- what an answer of the harness has left for a Get of its run
abbrev pub Found : MemoryStore → Record → Type 0
Found store r = memory_get background store r.run.id ≡ ok (normalize_record r)

saved-Found :
    (s : Service) (r : Record) (acts : List Act)
    → SavedLast (on_memory s) r none acts
    → Found (runs_after acts) r
unfolding runs_after
saved-Found s r acts (before, last, taken) =
    subst (λ a. Found (runs_after a) r) (sym last) (memory_get-upsert (runs_after before) r taken)

-- ContinueRun returns the run of the record, in the normal form that the store keeps
abbrev pub Continues : MemoryStore → Run → Type 0
Continues store run = continue_run (memory_get background store) run.id ≡ ok (normalize_run run)

Found-Continues : (store : MemoryStore) (r : Record) → Found store r → Continues store r.run
unfolding continue_run normalize_record
Found-Continues store r h = rw h refl

-- The last act gave the record to the store, which holds what the acts before it left, and the
-- store refused it with this error.
abbrev pub Refused : List Act → Record → Error → Type 0
Refused acts r e =
    (before : List Act) × (acts ≡ saved r (some e) ∷ before)
    × ((memory_upsert background (runs_after before) r).1 ≡ err e)

-- so was the record of the run with some steps
abbrev pub RefusedRun : List Act → Run → Error → Type 0
RefusedRun acts run e = (steps : List Step) × Refused acts (record { run = run; steps = steps }) e

-- the error's run waits for an approval if it says that one is required, and has failed else
abbrev pub StoppedWith : Run → Error → Type 0
StoppedWith run e =
    ((is_approval_required e ≡ true) × (run.status ≡ RunStatus.awaiting_approval))
    ⊎ ((is_approval_required e ≡ false) × (run.status ≡ RunStatus.failed))

StoppedBy-StoppedWith : (r : Record) (e : Error) → StoppedBy e r → StoppedWith r.run e
StoppedBy-StoppedWith r e stopped = elim stopped.statuses [
  | inl (waits, status, _) ↦ inl (waits, status)
  | inr (fails, status, _) ↦ inr (fails, status)
]

error_of-eq-some : (a : Result (Unit {0})) (e : Error) → error_of a ≡ some e → a ≡ err e
error_of-eq-some (ok u) e h = cc
error_of-eq-some (err x) e h = cc

-- ContinueRun returns the run, which the error stopped with its last step
abbrev pub Stops : List Act → Run → Error → Type 0
Stops acts run e = Continues (runs_after acts) run × StoppedWith run e

-- What StartRun returns after these acts. With no error, a completed run that ContinueRun finds;
-- with one error, a run that it finds as that error stopped it, or the store's refusal of the run;
-- with two, the store's refusal of the run that the first one stopped; with no run, the store's
-- refusal of a run without a step.
abbrev pub Resumes : List Act → Option Run → List Error → Type 0
Resumes acts (some run) [] = Continues (runs_after acts) run × (run.status ≡ RunStatus.completed)
Resumes acts (some run) (e ∷ []) = RefusedRun acts run e ⊎ Stops acts run e
Resumes acts (some run) (e ∷ persist_err ∷ []) = RefusedRun acts run persist_err × StoppedWith run e
Resumes acts none (e ∷ []) = (run : Run) × Refused acts (record { run = run; steps = [] }) e
Resumes acts _ _ = ⊥

saved-Refused :
    (s : Service) (r : Record) (e : Error) (acts : List Act)
    → SavedLast (on_memory s) r (some e) acts
    → Refused acts r e
saved-Refused s r e acts (before, last, told) =
    (before, last, error_of-eq-some (memory_upsert background (runs_after before) r).1 e told)

saved-Continues :
    (s : Service) (r : Record) (acts : List Act)
    → SavedLast (on_memory s) r none acts
    → Continues (runs_after acts) r.run
saved-Continues s r acts last = Found-Continues (runs_after acts) r (saved-Found s r acts last)

Ended-Resumes :
    (s : Service) (most : ℕ) (acts : List Act) (r : Returned)
    → Ended (on_memory s) most acts r
    → Resumes acts (run_of r) (errors_of r)
Ended-Resumes s most acts (refused e) (r, last, bare) = (
  r.run,
  subst (λ steps. Refused acts (record { run = r.run; steps = steps }) e) bare
      (saved-Refused s r e acts last),
)
Ended-Resumes s most acts (returned r none) (last, status, _, _) =
    (saved-Continues s r acts last, status)
Ended-Resumes s most acts (returned r (some e)) (inl last, _) =
    inl (r.steps, saved-Refused s r e acts last)
Ended-Resumes s most acts (returned r (some e)) (inr (last, stopped), _) =
    inr (saved-Continues s r acts last, StoppedBy-StoppedWith r e stopped)
Ended-Resumes s most acts (joined r e persist_err) (last, stopped, _) =
    ((r.steps, saved-Refused s r persist_err acts last), StoppedBy-StoppedWith r e stopped)

-- Take a harness whose runs are kept in the memory store, and a request that normalizeRequest
-- accepts, in a store with no run yet. If StartRun returns a run and no error, the run is completed
-- and ContinueRun on its id returns it, but for the white space around its fields. If it returns a
-- run and one error, then either ContinueRun returns the run, which waits for an approval if the
-- error says that one is required and has failed else, or the run's last act gave a record of this
-- run to the store, which refused it with that error. If it returns a run and two errors, the store
-- refused a record of this run in the last act with the second, and the run's status is the one
-- that the first asks for. If it returns no run, it returns one error, with which the store refused
-- the record of a run without a step in the last act.
pub start_run-Resumes :
    ⦃u : CharTables⦄
    → (s : Service) (request accepted : RunRequest) (w : World)
    → normalize_request s.formats (s.clock w.reads) request ≡ ok accepted
    → w.acts ≡ []
    → Resumes
        (start_run (on_memory s) request w).0.acts
        (start_run (on_memory s) request w).1
        (start_run (on_memory s) request w).2
unfolding start_run
start_run-Resumes s request accepted w normal fresh =
    Ended-Resumes s (steps_of accepted.max_steps) _ (run_investigation (on_memory s) request w).1
      (run_investigation-Ended (on_memory s) request accepted w normal fresh)
