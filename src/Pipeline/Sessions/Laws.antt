-- ===== src/Pipeline/Sessions/Laws.antt =====
-- Evidence that the adapter took reaches the session store.
use mathlib.Core.List.{append-nil, append_assoc}
use semantic_intelligence_la.Base.Results.{Meets-keep}
use semantic_intelligence_la.Base.Times.{Time}
use semantic_intelligence_la.Contracts.Sessions.{Event, Status, validate}
use semantic_intelligence_la.Contracts.Evidence.{Json, Record}
use semantic_intelligence_la.Storage.JsonLines.{background, fold_left}
use semantic_intelligence_la.SessionStore.{MemoryStore, memory_append}
use semantic_intelligence_la.Adapters.Shared.{Stamps, Config}
use semantic_intelligence_la.Adapters.Radius.{
  AccountingEvent, AdaptedRecord, adapt, normalize_status, decode_record, unified, normalize_record,
}
use semantic_intelligence_la.Adapters.Radius.Laws.{normalize_record-adapt_of_radius}
use semantic_intelligence_la.Pipeline.Normalize.{Progress, Service, run}
use semantic_intelligence_la.Pipeline.Normalize.Laws.{Turns, project_once, run_records-handles}
use semantic_intelligence_la.Pipeline.Normalize.Completion.{CanHandle, run_records-completes}
use semantic_intelligence_la.Pipeline.Sessions.{service_of}
use semantic_intelligence_la.Base.{
  length, All, All-map_pred, Text, CharTables, Result, ok, Meets, Meets-bind, Meets-eq-ok, suc, ◌+◌,
  ◌≡◌, refl, sym, ap, ◌∙◌, true, none, some, List, [], ◌∷◌, ◌++◌, arith,
}

memory_append_ok :
    (s : MemoryStore) (e : Event)
    → validate e ≡ ok tt
    → memory_append background s e ≡ (s ++ e ∷ [], ok tt)
unfolding memory_append
memory_append_ok s e valid = rw valid refl

-- the projection store's Append
abbrev pub append_event : Event → MemoryStore → MemoryStore × Result (Unit {0})
append_event e s = memory_append background s e

length-Turns :
    {A B : Type 0} (f : A → Result B) (items : List A) (results : List B)
    → Turns f items results
    → length results ≡ length items
length-Turns f [] [] h = refl
length-Turns f (a ∷ items) (b ∷ results) (e, h) = ap suc (length-Turns f items results h)
length-Turns f [] (b ∷ results) h = absurd h
length-Turns f (a ∷ items) [] h = absurd h

module _ ⦃u : CharTables⦄ (stamps : Stamps) (json : Json AccountingEvent) where
  normalize_record-valid :
      (r : Record) → Meets (λ e. validate e ≡ ok tt) (normalize_record stamps json r)
  unfolding normalize_record
  normalize_record-valid r = Meets-bind _ (decode_record stamps json r) _ (λ event.
      Meets-bind _ (normalize_status event.acct_status_type) _ (λ status.
        Meets-keep _ (validate (unified stamps json r event status)) _ (λ _ valid. valid)))

  projection_appends :
      (s : MemoryStore) (records : List Record) (events : List Event)
      → Turns (normalize_record stamps json) records events
      → fold_left (project_once (some append_event)) s events ≡ s ++ events
  projection_appends s [] [] h = sym (append-nil s)
  projection_appends s (r ∷ records) (e ∷ events) (n, h) =
      let valid =
        Meets-eq-ok (λ e. validate e ≡ ok tt) (normalize_record stamps json r) e
          (normalize_record-valid r) n in
      rw (memory_append_ok s e valid, project_once)
        (projection_appends (s ++ e ∷ []) records events h ∙ append_assoc s (e ∷ []) events)
  projection_appends s [] (e ∷ events) h = absurd h
  projection_appends s (r ∷ records) [] h = absurd h

  module _ (marshal : Event → Result Text) where
    -- the record of a payload that the adapter took, whose accounting status is known, and whose
    -- event json.Marshal prints
    pub record Ingested (cfg : Config) (r : Record) : Type 0 where
      pub payload : Text
      pub ingested_at : Time
      pub now : Time
      pub adapted : AdaptedRecord
      pub status : Status
      pub taken : adapt stamps json cfg payload ingested_at now ≡ ok adapted
      pub raw : r ≡ adapted.raw
      pub known : normalize_status adapted.event.acct_status_type ≡ ok status
      pub prints :
          (e : Event)
          → normalize_record stamps json r ≡ ok e
          → (line : Text) × (marshal e ≡ ok line)

    -- the service on a memory store and with no publisher
    abbrev pub on_memory : Service Event MemoryStore (Unit {0})
    on_memory = service_of stamps json marshal (some append_event) none

    Ingested-CanHandle : (cfg : Config) (r : Record) → Ingested cfg r → CanHandle on_memory r
    unfolding service_of
    Ingested-CanHandle cfg r g =
        let made =
          normalize_record-adapt_of_radius stamps json cfg g.payload g.ingested_at g.now g.adapted
            g.status g.taken g.known in
        let e : Event = made.0 in
        let normal : normalize_record stamps json r ≡ ok e =
          ap (normalize_record stamps json) g.raw ∙ made.1 in
        let (line, printed) = g.prints e normal in
        record {
          event = e;
          normalized = normal;
          line = line;
          encoded = printed;
          projects = λ s. ap (λ p. p.1) (memory_append_ok s e made.2);
          publishes = tt;
        }

    -- Raw records of payloads that the adapter took with known accounting statuses, at least one,
    -- are all normalised into the session store: the run returns no error, the memory store has
    -- grown by their events, in order and each of them once, and the counts by the number of
    -- records.
    pub run-stores :
        (cfg : Config) (r : Record) (records : List Record) (done : Progress MemoryStore (Unit {0}))
        → All (Ingested cfg) (r ∷ records)
        → (d : Progress MemoryStore (Unit {0})) × (events : List Event) × (run on_memory background
              (some (ok (r ∷ records)))
              true
              done
            ≡ (d, ok tt))
          × Turns (normalize_record stamps json) (r ∷ records) events
          × (d.projection ≡ done.projection ++ events)
          × (d.counts.records ≡ done.counts.records + suc (length records))
          × (d.counts.projected ≡ done.counts.projected + suc (length records))
    unfolding run
    run-stores cfg r records done h =
        let (d, completed) =
          run_records-completes on_memory 0 (r ∷ records) done
            (All-map_pred _ _ (Ingested-CanHandle cfg) (r ∷ records) h) in
        let (events, turns, lines, handled) =
          run_records-handles on_memory background 0 (r ∷ records) done d completed in
        let turned : Turns (normalize_record stamps json) (r ∷ records) events =
          unfold service_of in turns in
        let folded : d.projection
            ≡ fold_left (project_once (some append_event)) done.projection events =
          unfold service_of in handled.projection in
        let many = length-Turns (normalize_record stamps json) (r ∷ records) events turned in
        (
          d,
          events,
          completed,
          turned,
          (folded ∙ projection_appends done.projection (r ∷ records) events turned),
          omega (arith, handled.records, many),
          (unfold service_of in omega (arith, handled.projected, many)),
        )
