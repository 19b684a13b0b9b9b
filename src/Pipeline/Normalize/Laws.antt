-- ===== src/Pipeline/Normalize/Laws.antt =====
-- What a run of a normalisation service leaves behind.
use mathlib.Core.Path.{subst}
use mathlib.Core.List.{append-nil, append_assoc}
use semantic_intelligence_la.Contracts.Evidence.{Record, Envelope}
use semantic_intelligence_la.Storage.JsonLines.{Context, fold_left}
use semantic_intelligence_la.Pipeline.Normalize.{
  Progress, Service, Run, go_on, count_record, projected, published, project_event, publish_event,
  write_event, handle_event, round_of, run_records,
}
use semantic_intelligence_la.Base.{
  length, Text, Error, Result, ok, err, ℕ, suc, ◌+◌, ◌≡◌, refl, sym, ap, ◌∙◌, Option, none, some,
  List, [], ◌∷◌, ◌++◌, arith,
}

-- each item is turned into the one beside it
abbrev pub Turns : {A B : Type 0} → (A → Result B) → List A → List B → Type 0
Turns f [] [] = Unit
Turns f (a ∷ items) (b ∷ results) = (f a ≡ ok b) × Turns f items results
Turns f _ _ = ⊥

-- what an optional part adds to its count for `n` events
abbrev pub each_if : {A : Type 0} → Option A → ℕ → ℕ
each_if none n = 0
each_if (some a) n = n

each_if-suc :
    {A : Type 0} (part : Option A) (n : ℕ) → each_if part (suc n) ≡ each_if part 1 + each_if part n
each_if-suc none n = omega arith
each_if-suc (some a) n = omega arith

-- the projection after one event, and after a list of them
abbrev pub project_once : {E S : Type 0} → Option (E → S → S × Result (Unit {0})) → S → E → S
project_once none s event = s
project_once (some project) s event = (project event s).0

module _ {S P : Type 0} where
  go_on-eq-ok :
      (m : Run S P) (k : Progress S P → Run S P) (d : Progress S P)
      → go_on m k ≡ (d, ok tt)
      → (d1 : Progress S P) × (m ≡ (d1, ok tt)) × (k d1 ≡ (d, ok tt))
  go_on-eq-ok (d1, ok u) k d h = (d1, refl, h)
  go_on-eq-ok (d1, err e) k d h = cc

  -- `d` differs from `done` in what it has projected and published alone
  record Projects (done d : Progress S P) (s : S) (n m : ℕ) : Type 0 where
    written : d.written ≡ done.written
    projection : d.projection ≡ s
    records : d.counts.records ≡ done.counts.records
    projected : d.counts.projected ≡ done.counts.projected + n
    published : d.counts.published ≡ done.counts.published + m

  moved :
      (done x d : Progress S P) (s : S) (n m : ℕ) {a : Result (Unit {0})}
      → Projects done x s n m
      → ◌≡◌ {A = Run S P} (x, a) (d, ok tt)
      → Projects done d s n m
  moved done x d s n m p h = subst (λ z. Projects done z s n m) (ap (λ q. q.0) h) p

  still : (done : Progress S P) → Projects done done done.projection 0 0
  still done = record {
    written = refl;
    projection = refl;
    records = refl;
    projected = omega arith;
    published = omega arith;
  }

  projected-Projects :
      (done d : Progress S P) (answer : S × Result (Unit {0}))
      → projected done answer ≡ (d, ok tt)
      → Projects done d answer.0 1 0
  projected-Projects done d (s, ok u) h =
      moved done _ d s 1 0
        (record {
          written = refl;
          projection = refl;
          records = refl;
          projected = refl;
          published = omega arith;
        })
        h
  projected-Projects done d (s, err e) h = cc

  published-Projects :
      (done d : Progress S P) (answer : P × Result (Unit {0}))
      → published done answer ≡ (d, ok tt)
      → Projects done d done.projection 0 1
  published-Projects done d (p, ok u) h =
      moved done _ d done.projection 0 1
        (record {
          written = refl;
          projection = refl;
          records = refl;
          projected = omega arith;
          published = refl;
        })
        h
  published-Projects done d (p, err e) h = cc

  project_event-Projects :
      {E : Type 0} (project : Option (E → S → S × Result (Unit {0}))) (event : E)
      (done d : Progress S P)
      → project_event project event done ≡ (d, ok tt)
      → Projects done d (project_once project done.projection event) (each_if project 1) 0
  unfolding project_event
  project_event-Projects none event done d h = moved done done d _ 0 0 (still done) h
  project_event-Projects (some project) event done d h =
      projected-Projects done d (project event done.projection) h

  publish_event-Projects :
      (publish : Option (Envelope → P → P × Result (Unit {0}))) (envelope : Result Envelope)
      (done d : Progress S P)
      → publish_event publish envelope done ≡ (d, ok tt)
      → Projects done d done.projection 0 (each_if publish 1)
  unfolding publish_event
  publish_event-Projects none envelope done d h = moved done done d _ 0 0 (still done) h
  publish_event-Projects (some publish) (ok envelope) done d h =
      published-Projects done d (publish envelope done.queue) h
  publish_event-Projects (some publish) (err e) done d h = cc

  module _ {E : Type 0} (service : Service E S P) where
    -- what a run did for these events, whose JSON lines are given
    pub record Handled (done d : Progress S P) (events : List E) (lines : List Text) : Type 0 where
      pub encoded : Turns service.encode events lines
      pub written : d.written ≡ done.written ++ lines
      pub projection :
          d.projection ≡ fold_left (project_once service.project) done.projection events
      pub records : d.counts.records ≡ done.counts.records + length events
      pub projected :
          d.counts.projected ≡ done.counts.projected + each_if service.project (length events)
      pub published :
          d.counts.published ≡ done.counts.published + each_if service.publish (length events)

    Handled-one :
        (event : E) (answer : Result Text) (done d : Progress S P)
        → service.encode event ≡ answer
        → go_on (write_event service event answer done) (λ done.
          go_on
            (project_event service.project event done)
            (λ done. publish_event service.publish (service.build_envelope event) done))
          ≡ (d, ok tt)
        → (line : Text) × Handled done d (event ∷ []) (line ∷ [])
    Handled-one event (err e) done d en h = cc
    Handled-one event (ok line) done d en h =
        let (d1, first, rest) =
          go_on-eq-ok (project_event service.project event (count_record line done))
            (λ done. publish_event service.publish (service.build_envelope event) done) d h in
        let p = project_event-Projects service.project event (count_record line done) d1 first in
        let q = publish_event-Projects service.publish (service.build_envelope event) d1 d rest in
        (
          line,
          record {
            encoded = (en, tt);
            written = q.written ∙ p.written;
            projection = q.projection ∙ p.projection;
            records = q.records ∙ p.records;
            projected = omega (arith, q.projected, p.projected);
            published = omega (arith, q.published, p.published);
          },
        )

    Handled-then :
        (done d1 d : Progress S P) (event : E) (line : Text) (events : List E) (lines : List Text)
        → Handled done d1 (event ∷ []) (line ∷ [])
        → Handled d1 d events lines
        → Handled done d (event ∷ events) (line ∷ lines)
    Handled-then done d1 d event line events lines h k = record {
      encoded = (h.encoded.0, k.encoded);
      written =
          k.written ∙ ap (λ t. t ++ lines) h.written ∙ append_assoc done.written (line ∷ []) lines;
      projection =
          k.projection ∙ ap (λ s. fold_left (project_once service.project) s events) h.projection;
      records = omega (arith, k.records, h.records);
      projected =
          omega (arith, k.projected, h.projected, each_if-suc service.project (length events));
      published =
          omega (arith, k.published, h.published, each_if-suc service.publish (length events));
    }

    round-Handled :
        (fault : Option Error) (r : Record) (answer : Result E) (done d : Progress S P)
        → service.normalize r ≡ answer
        → round_of service fault r done ≡ (d, ok tt)
        → (event : E) × (service.normalize r ≡ ok event)
          × (line : Text) × Handled done d (event ∷ []) (line ∷ [])
    unfolding handle_event
    round-Handled (some e) r answer done d n h = cc
    round-Handled none r (err e) done d n h = absurd (not_ok (rw n at h))
      where
        not_ok : ◌≡◌ {A = Run S P} (done, err e) (d, ok tt) → ⊥
        not_ok q = cc
    round-Handled none r (ok event) done d n h =
        let (line, one) = Handled-one event (service.encode event) done d refl (rw n at h) in
        (event, n, line, one)

    -- A run of the loop that returns no error has normalised every record, in order, and written
    -- the JSON line of every event behind what was written; the projection, if there is one, has
    -- taken every event in that order; and the counts have grown by the number of records, those
    -- of projections and publications only where there is a store and a publisher.
    pub run_records-handles :
        (ctx : Context) (i : ℕ) (records : List Record) (done d : Progress S P)
        → run_records service ctx i records done ≡ (d, ok tt)
        → (events : List E) × Turns service.normalize records events
          × (lines : List Text) × Handled done d events lines
    unfolding run_records
    run_records-handles ctx i [] done d h =
        let same : done ≡ d = ap (λ q. q.0) h in
        (
          [],
          tt,
          [],
          subst (λ z. Handled done z [] []) same
              (record {
                encoded = tt;
                written = sym (append-nil done.written);
                projection = refl;
                records = omega arith;
                projected = none_more done.counts.projected service.project;
                published = none_more done.counts.published service.publish;
              }),
        )
      where
        none_more : {A : Type 0} (n : ℕ) (part : Option A) → n ≡ n + each_if part 0
        none_more n none = omega arith
        none_more n (some a) = omega arith
    run_records-handles ctx i (r ∷ records) done d h =
        let (d1, first, rest) =
          go_on-eq-ok (round_of service (ctx i) r done) (run_records service ctx (suc i) records) d
            h in
        let (event, n, line, one) =
          round-Handled (ctx i) r (service.normalize r) done d1 refl first in
        let (events, ns, lines, all) = run_records-handles ctx (suc i) records d1 d rest in
        (
          event ∷ events,
          (n, ns),
          line ∷ lines,
          Handled-then done d1 d event line events lines one all,
        )
