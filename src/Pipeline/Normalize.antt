-- ===== src/Pipeline/Normalize.antt =====
-- internal/services/normalize/service.go and internal/services/accessnormalize/service.go: one
-- service for each kind of event, with one body. The raw store gives the records, the writer takes
-- the JSON lines, the projection store and the publisher are optional, and each is a function from
-- its state. A nil logger discards what it is given, and so do the models.
pub mod Laws
pub mod Completion
use semantic_intelligence_la.Contracts.Evidence.{Record, Envelope}
use semantic_intelligence_la.Storage.JsonLines.{Context}
use semantic_intelligence_la.Base.{
  if◌then◌else◌, is_empty, Text, codes, Error, invalid, Result, ok, err, ℕ, suc, ◌+◌, Bool, not,
  Option, none, some, List, [], ◌∷◌, ◌++◌, arith,
}

-- Result of the services
pub record Counts : Type 0 where
  pub records : ℕ
  pub projected : ℕ
  pub published : ℕ

abbrev pub no_counts : Counts
no_counts = record { records = 0; projected = 0; published = 0 }

-- what a run has done so far
pub record Progress (S P : Type 0) : Type 0 where
  pub written : List Text
  pub projection : S
  pub queue : P
  pub counts : Counts

-- the fields of a service, for events `E`; `none` is a nil store or publisher
pub record Service (E S P : Type 0) : Type 0 where
  pub normalize : Record → Result E
  pub encode : E → Result Text
  pub project : Option (E → S → S × Result (Unit {0}))
  pub publish : Option (Envelope → P → P × Result (Unit {0}))
  pub build_envelope : E → Result Envelope

abbrev pub Run : Type 0 → Type 0 → Type 0
Run S P = Progress S P × Result (Unit {0})

module _ {S P : Type 0} where
  -- the next part, unless an error was returned
  abbrev pub go_on : Run S P → (Progress S P → Run S P) → Run S P
  go_on (done, err e) k = (done, err e)
  go_on (done, ok u) k = k done

  abbrev pub count_record : Text → Progress S P → Progress S P
  count_record line done = record done {
    written = done.written ++ line ∷ [];
    counts = record {
      records = done.counts.records + 1;
      projected = done.counts.projected;
      published = done.counts.published;
    };
  }

  abbrev pub projected : Progress S P → S × Result (Unit {0}) → Run S P
  projected done (s, err e) = (record done { projection = s }, err e)
  projected done (s, ok u) = (
    record done {
      projection = s;
      counts = record {
        records = done.counts.records;
        projected = done.counts.projected + 1;
        published = done.counts.published;
      };
    },
    ok tt,
  )

  abbrev pub published : Progress S P → P × Result (Unit {0}) → Run S P
  published done (p, err e) = (record done { queue = p }, err e)
  published done (p, ok u) = (
    record done {
      queue = p;
      counts = record {
        records = done.counts.records;
        projected = done.counts.projected;
        published = done.counts.published + 1;
      };
    },
    ok tt,
  )

  -- `if service.ProjectionStore != nil`
  unfoldable pub project_event :
      {E : Type 0} → Option (E → S → S × Result (Unit {0})) → E → Progress S P → Run S P
  project_event none event done = (done, ok tt)
  project_event (some project) event done = projected done (project event done.projection)

  abbrev pub send :
      (Envelope → P → P × Result (Unit {0})) → Result Envelope → Progress S P → Run S P
  send publish (err e) done = (done, err e)
  send publish (ok envelope) done = published done (publish envelope done.queue)

  -- `if service.Publisher != nil`
  unfoldable pub publish_event :
      Option (Envelope → P → P × Result (Unit {0})) → Result Envelope → Progress S P → Run S P
  publish_event none envelope done = (done, ok tt)
  publish_event (some publish) envelope done = send publish envelope done

  module _ {E : Type 0} (service : Service E S P) where
    abbrev pub write_event : E → Result Text → Progress S P → Run S P
    write_event event (err e) done = (done, err e)
    write_event event (ok line) done = (count_record line done, ok tt)

    -- one round behind NormalizeRecord
    unfoldable pub handle_event : E → Progress S P → Run S P
    unfolding project_event publish_event
    handle_event event done = go_on (write_event event (service.encode event) done) (λ done.
        go_on (project_event service.project event done)
          (λ done. publish_event service.publish (service.build_envelope event) done))

    abbrev pub handle_normalized : Result E → Progress S P → Run S P
    handle_normalized (err e) done = (done, err e)
    handle_normalized (ok event) done = handle_event event done

    abbrev pub round_of : Option Error → Record → Progress S P → Run S P
    round_of (some e) r done = (done, err e)
    round_of none r done = handle_normalized (service.normalize r) done

    -- the loop; `i` is the number of the round's call of ctx.Err()
    unfoldable pub run_records : Context → ℕ → List Record → Progress S P → Run S P
    unfolding handle_event
    run_records ctx i [] done = (done, ok tt)
    run_records ctx i (r ∷ records) done =
        go_on (round_of (ctx i) r done) (run_records ctx (suc i) records)

    -- the records that the raw store replays, `none` for a nil store
    unfoldable pub run : Context → Option (Result (List Record)) → Bool → Progress S P → Run S P
    unfolding run_records
    run ctx none writer done = (done, err (invalid (codes "raw store is required")))
    run ctx (some (err e)) writer done =
        (done, err (if writer then e else invalid (codes "output writer is required")))
    run ctx (some (ok records)) writer done =
        if not writer
        then (done, err (invalid (codes "output writer is required")))
        else if is_empty records
        then (done, err (invalid (codes "no raw evidence records available")))
        else run_records ctx 0 records done
