-- ===== src/Pipeline/Ingest/Laws.antt =====
-- What a run of an ingest service leaves behind.
use mathlib.Core.Path.{subst}
use semantic_intelligence_la.Base.Times.{Time}
use semantic_intelligence_la.Contracts.Evidence.{Json, Record, Envelope, validate}
use semantic_intelligence_la.Storage.JsonLines.{Context, background, on_ok}
use semantic_intelligence_la.RawStore.{MemoryStore, accept, memory_append}
use semantic_intelligence_la.Adapters.Shared.{Stamps, Config}
use semantic_intelligence_la.Adapters.Radius
use semantic_intelligence_la.Adapters.Radius.Laws.{adapt-routes_of_radius}
use semantic_intelligence_la.Pipeline.Ingest.{
  Progress, Run, Service, go_on, persisted, published, publish_envelope, handle_adapted,
  handle_payload, handle_file, handle_files, handle_listed, run, run_radius, adapt_radius,
}
use semantic_intelligence_la.Base.{
  any, All, All-append, All-map_pred, Text, eq_text, eq_text_refl, Error, Result, ok, err, ◌>>◌,
  Meets-eq-ok, Meets-keep, ℕ, suc, ◌≡◌, refl, sym, Bool, true, ◌||◌, Option, none, some, List, [],
  ◌∷◌, ◌++◌, arith,
}

-- the record of the envelope is in the store
abbrev pub IsPersisted : MemoryStore → Envelope → Type 0
IsPersisted store envelope = any (λ r. eq_text r.event_id envelope.event_id) store ≡ true

any-append {ℓ} :
    {A : Type ℓ} (p : A → Bool) (xs ys : List A) → any p (xs ++ ys) ≡ (any p xs || any p ys)
any-append p [] ys = refl
any-append p (x ∷ xs) ys = ground (arith, any-append p xs ys)

-- a publisher that keeps what it is given, and answers what it likes
abbrev pub keep_published :
    (Envelope → Result (Unit {0})) → Envelope → List Envelope → List Envelope × Result (Unit {0})
keep_published answer envelope queue = (queue ++ envelope ∷ [], answer envelope)

abbrev pub append_to : (Text → Bool) → Record → MemoryStore → MemoryStore × Result (Unit {0})
append_to valid r store = memory_append valid background store r

abbrev pub Done : Type 0
Done = Progress MemoryStore (List Envelope)

-- every envelope that was published is that of a record in the store
abbrev pub AllPersisted : Done → Type 0
AllPersisted done = All (IsPersisted done.store) done.queue

module _ (valid : Text → Bool) (answer : Envelope → Result (Unit {0}))
    (adapt : Text → Time → Result (Record × Envelope)) where
  -- the service on a memory store
  abbrev pub on_memory : Service MemoryStore (List Envelope)
  on_memory = record {
    adapt = adapt;
    append = append_to valid;
    publish = some (keep_published answer);
  }

  go_on-AllPersisted :
      (m : Run MemoryStore (List Envelope)) (k : Done → Run MemoryStore (List Envelope))
      → AllPersisted m.0
      → ((d : Done) → m ≡ (d, ok tt) → AllPersisted (k d).0)
      → AllPersisted (go_on m k).0
  go_on-AllPersisted (d, ok u) k p h = h d refl
  go_on-AllPersisted (d, err e) k p h = p

  -- the adapter makes the envelope of the record that it makes
  abbrev pub Pairs : Type 0
  Pairs =
      (payload : Text) (now : Time) (r : Record) (envelope : Envelope)
      → adapt payload now ≡ ok (r, envelope)
      → envelope.event_id ≡ r.event_id

  -- what an append that succeeds leaves in the store, and one that fails does not change
  Appends : Record → MemoryStore → MemoryStore × Result (Unit {0}) → Type 0
  Appends r store (s, ok u) = s ≡ store ++ r ∷ []
  Appends r store (s, err e) = s ≡ store

  memory_append-Appends :
      (r : Record) (store : MemoryStore) → Appends r store (memory_append valid background store r)
  unfolding memory_append accept Appends
  memory_append-Appends r store =
      elim (validate valid r)
        as (λ m. Appends r store (on_ok store (m >> ok r) (λ a. (store ++ a ∷ [], ok tt)))) [
          | ok u ↦ refl
          | err e ↦ refl
        ]

  published-AllPersisted :
      (done : Done) (envelope : Envelope) (queue : List Envelope) (a : Result (Unit {0}))
      → All (IsPersisted done.store) queue
      → AllPersisted (published done (queue, a)).0
  published-AllPersisted done envelope queue (ok u) h = h
  published-AllPersisted done envelope queue (err e) h = h

  -- one append, then the envelope of the record
  abbrev round :
      (done : Done) → MemoryStore × Result (Unit {0}) → Envelope → Run MemoryStore (List Envelope)
  round done kept envelope =
      go_on (persisted done kept) (λ d. publish_envelope (some (keep_published answer)) envelope d)

  round-AllPersisted :
      (done : Done) (r : Record) (envelope : Envelope) (kept : MemoryStore × Result (Unit {0}))
      → envelope.event_id ≡ r.event_id
      → AllPersisted done
      → Appends r done.store kept
      → AllPersisted (round done kept envelope).0
  unfolding publish_envelope Appends
  round-AllPersisted done r envelope (s, err e) own p h =
      All-map_pred _ _ (λ x k. subst (λ z. IsPersisted z x) (sym h) k) done.queue p
  round-AllPersisted done r envelope (s, ok u) own p h =
      let IsKept : Envelope → Type 0 = IsPersisted s in
      published-AllPersisted (persisted done (s, ok u)).0 envelope _ (answer envelope) (
        All-append IsKept done.queue (envelope ∷ [])
          (All-map_pred (IsPersisted done.store) IsKept
            (λ x k.
              rw (h, any-append (λ r. eq_text r.event_id x.event_id) done.store (r ∷ []), k) refl)
            done.queue p)
          (
            rw
                (
                  h,
                  any-append (λ r. eq_text r.event_id envelope.event_id) done.store (r ∷ []),
                  own,
                  eq_text_refl r.event_id,
                )
                (ground arith),
            tt,
          ))

  module _ (pairs : Pairs) (read : Text → Result Text) (clock : ℕ → Time) where
    handle_adapted-AllPersisted :
        (payload : Text) (now : Time) (adapted : Result (Record × Envelope)) (done : Done)
        → adapt payload now ≡ adapted
        → AllPersisted done
        → AllPersisted (handle_adapted on_memory read clock adapted done).0
    unfolding publish_envelope
    handle_adapted-AllPersisted payload now (err e) done made p = p
    handle_adapted-AllPersisted payload now (ok (r, envelope)) done made p =
        round-AllPersisted done r envelope (memory_append valid background done.store r)
          (pairs payload now r envelope made) p (memory_append-Appends r done.store)

    handle_payload-AllPersisted :
        (i : ℕ) (payload : Result Text) (done : Done)
        → AllPersisted done
        → AllPersisted (handle_payload on_memory read clock i payload done).0
    handle_payload-AllPersisted i (err e) done p = p
    handle_payload-AllPersisted i (ok payload) done p =
        handle_adapted-AllPersisted payload (clock i) (adapt payload (clock i)) done refl p

    handle_file-AllPersisted :
        (cancelled : Option Error) (i : ℕ) (path : Text) (done : Done)
        → AllPersisted done
        → AllPersisted (handle_file on_memory read clock cancelled i path done).0
    unfolding handle_file
    handle_file-AllPersisted (some e) i path done p = p
    handle_file-AllPersisted none i path done p = handle_payload-AllPersisted i (read path) done p

    handle_files-AllPersisted :
        (ctx : Context) (i : ℕ) (paths : List Text) (done : Done)
        → AllPersisted done
        → AllPersisted (handle_files on_memory read clock ctx i paths done).0
    unfolding handle_files
    handle_files-AllPersisted ctx i [] done p = p
    handle_files-AllPersisted ctx i (path ∷ paths) done p =
        go_on-AllPersisted _ _ (handle_file-AllPersisted (ctx i) i path done p) (λ d e.
          handle_files-AllPersisted ctx (suc i) paths d
            (subst (λ q. AllPersisted q.0) e (handle_file-AllPersisted (ctx i) i path done p)))

    handle_listed-AllPersisted :
        (ctx : Context) (paths : Result (List Text)) (done : Done)
        → AllPersisted done
        → AllPersisted (handle_listed on_memory read clock ctx paths done).0
    handle_listed-AllPersisted ctx (err e) done p = p
    handle_listed-AllPersisted ctx (ok paths) done p = handle_files-AllPersisted ctx 0 paths done p

adapt_radius-paired :
    (stamps : Stamps) (json : Json Radius.AccountingEvent) (cfg : Config) (payload : Text)
    (now : Time) (r : Record) (envelope : Envelope)
    → adapt_radius stamps json cfg payload now ≡ ok (r, envelope)
    → envelope.event_id ≡ r.event_id
unfolding adapt_radius
adapt_radius-paired stamps json cfg payload now r envelope h =
    let Paired : Record × Envelope → Type 0 = λ made. made.1.event_id ≡ made.0.event_id in
    Meets-eq-ok Paired (adapt_radius stamps json cfg payload now) (r, envelope)
      (Meets-keep Paired (Radius.adapt stamps json cfg payload now now) _
        (λ a made. (adapt-routes_of_radius stamps json cfg payload now now a made).1))
      h

-- Whenever a run of the RADIUS ingest service on a memory store ends, with whatever error, and
-- whatever the publisher answers, every envelope that has been handed to the publisher has the id
-- of a record that the store holds, if that was so before the run.
pub run_radius-publishes_persisted :
    (valid : Text → Bool) (answer : Envelope → Result (Unit {0})) (stamps : Stamps)
    (json : Json Radius.AccountingEvent) (cfg : Config) (read : Text → Result Text)
    (clock : ℕ → Time) (has_store : Bool) (input : Text) (list : Text → Result (List Text))
    (ctx : Context) (done : Done)
    → AllPersisted done
    → AllPersisted
        (run_radius stamps
          (append_to valid)
          (some (keep_published answer))
          read
          clock
          json
          cfg
          has_store
          input
          list
          ctx
          done).0
unfolding run run_radius
run_radius-publishes_persisted valid answer stamps json cfg read clock has_store input list ctx done
      p =
    handle_listed-AllPersisted valid answer (adapt_radius stamps json cfg)
      (adapt_radius-paired stamps json cfg) read clock ctx _ done p
