-- ===== src/Pipeline/Normalize/Completion.antt =====
-- When a run of a normalisation service returns no error.
use semantic_intelligence_la.Contracts.Evidence.{Record, Envelope}
use semantic_intelligence_la.Storage.JsonLines.{background}
use semantic_intelligence_la.Pipeline.Normalize.{
  Progress, Service, Run, go_on, count_record, projected, published, project_event, publish_event,
  handle_event, round_of, run_records,
}
use semantic_intelligence_la.Base.{
  All, Text, Result, ok, err, ℕ, suc, ◌≡◌, refl, Option, none, some, List, [], ◌∷◌,
}

-- the projection store, if there is one, takes the event in every state
abbrev pub Projects : {E S : Type 0} → Option (E → S → S × Result (Unit {0})) → E → Type 0
Projects none event = Unit
Projects {S} (some project) event = (s : S) → (project event s).1 ≡ ok tt

-- the publisher, if there is one, takes the event's envelope in every state
abbrev pub Publishes :
    {P : Type 0} → Option (Envelope → P → P × Result (Unit {0})) → Result Envelope → Type 0
Publishes none envelope = Unit
Publishes {P} (some publish) envelope =
    (e : Envelope) × (envelope ≡ ok e) × ((p : P) → (publish e p).1 ≡ ok tt)

module _ {E S P : Type 0} (service : Service E S P) where
  -- every part of the service handles the record
  pub record CanHandle (r : Record) : Type 0 where
    pub event : E
    pub normalized : service.normalize r ≡ ok event
    pub line : Text
    pub encoded : service.encode event ≡ ok line
    pub projects : Projects service.project event
    pub publishes : Publishes service.publish (service.build_envelope event)

  -- a part of a run that returns no error
  abbrev pub Goes : Run S P → Type 0
  Goes m = (d : Progress S P) × (m ≡ (d, ok tt))

  Goes-go_on :
      (m : Run S P) (k : Progress S P → Run S P)
      → Goes m
      → ((d : Progress S P) → Goes (k d))
      → Goes (go_on m k)
  Goes-go_on m k (d, e) h = rw e (h d)

  projected-Goes :
      (done : Progress S P) (answer : S × Result (Unit {0}))
      → answer.1 ≡ ok tt
      → Goes (projected done answer)
  projected-Goes done (s, ok u) h = (_, refl)
  projected-Goes done (s, err e) h = cc

  published-Goes :
      (done : Progress S P) (answer : P × Result (Unit {0}))
      → answer.1 ≡ ok tt
      → Goes (published done answer)
  published-Goes done (p, ok u) h = (_, refl)
  published-Goes done (p, err e) h = cc

  project_event-Goes :
      (project : Option (E → S → S × Result (Unit {0}))) (event : E) (done : Progress S P)
      → Projects project event
      → Goes (project_event project event done)
  unfolding project_event
  project_event-Goes none event done h = (done, refl)
  project_event-Goes (some project) event done h =
      projected-Goes done (project event done.projection) (h done.projection)

  publish_event-Goes :
      (publish : Option (Envelope → P → P × Result (Unit {0}))) (envelope : Result Envelope)
      (done : Progress S P)
      → Publishes publish envelope
      → Goes (publish_event publish envelope done)
  unfolding publish_event
  publish_event-Goes none envelope done h = (done, refl)
  publish_event-Goes (some publish) envelope done (e, built, h) =
      rw built (published-Goes done (publish e done.queue) (h done.queue))

  round-Goes :
      (r : Record) (done : Progress S P) → CanHandle r → Goes (round_of service none r done)
  unfolding handle_event
  round-Goes r done c =
      rw (c.normalized, c.encoded)
        (Goes-go_on (project_event service.project c.event (count_record c.line done)) _
          (project_event-Goes service.project c.event (count_record c.line done) c.projects)
          (λ d. publish_event-Goes service.publish (service.build_envelope c.event) d c.publishes))

  -- On a context that does not end, a run over records that every part of the service handles
  -- returns no error.
  pub run_records-completes :
      (i : ℕ) (records : List Record) (done : Progress S P)
      → All CanHandle records
      → Goes (run_records service background i records done)
  unfolding run_records
  run_records-completes i [] done h = (done, refl)
  run_records-completes i (r ∷ records) done (c, h) =
      Goes-go_on (round_of service none r done) (run_records service background (suc i) records)
        (round-Goes r done c) (λ d. run_records-completes (suc i) records d h)
