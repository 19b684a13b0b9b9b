-- ===== src/Pipeline/Ingest.antt =====
-- internal/services/ingest/service.go and internal/services/accessingest/service.go: payload files
-- become raw evidence. The two packages differ in the adapter that they call. The directory, the
-- clock and os.ReadFile are parameters; a nil logger discards what it is given.
pub mod Laws
mod Tests
use semantic_intelligence_la.Base.Times.{Time}
use semantic_intelligence_la.Contracts.Evidence.{Json, Record, Envelope}
use semantic_intelligence_la.Storage.JsonLines.{Context}
use semantic_intelligence_la.Adapters.Radius
use semantic_intelligence_la.Adapters.Access as Auth
use semantic_intelligence_la.Adapters.Shared.{Stamps, Config, effective_input_path}
use semantic_intelligence_la.Base.{
  ◌==◌, if◌then◌else◌, is_empty, filter_by, Text, codes, CharTables, is_blank, equal_fold, Error,
  required, invalid, Result, ok, err, ◌>>=◌, ◌>>◌, fail_if, sort_by, less_text, ℕ, suc, ◌+◌, Bool,
  not, ◌&&◌, Option, none, some, List, [], ◌∷◌, map, arith,
}

-- one entry that filepath.WalkDir visits, with its path from the root
pub record Entry : Type 0 where
  pub path : Text
  pub name : Text
  pub is_dir : Bool

-- filepath.Ext of a name: what stands from the last dot on
unfoldable pub extension : Text → Text
extension [] = []
extension (c ∷ s) =
    let later = extension s in if not (is_empty later) then later else if c == 46 then c ∷ s else []

-- listJSONFiles: os.Stat says whether the root is a directory
unfoldable pub list_json_files :
    ⦃u : CharTables⦄ → Result Bool → Result (List Entry) → Result (List Text)
unfolding extension filter_by sort_by
list_json_files stat walk = do
  is_dir ← stat
  fail_if (not is_dir) (invalid (codes "input path is not a directory"))
  entries ← walk
  ok (
      sort_by less_text (
        map (λ (e : Entry). e.path)
          (filter_by (λ (e : Entry). not e.is_dir && equal_fold (extension e.name) (codes ".json"))
            entries)))

-- Result of the services
pub record Counts : Type 0 where
  pub files : ℕ
  pub persisted : ℕ
  pub published : ℕ

pub record Progress (S P : Type 0) : Type 0 where
  pub store : S
  pub queue : P
  pub counts : Counts

abbrev pub Run : Type 0 → Type 0 → Type 0
Run S P = Progress S P × Result (Unit {0})

-- what a service is made of: Adapt of its package on its configuration, Append of the raw store and
-- the publisher on its subject
pub record Service (S P : Type 0) : Type 0 where
  pub adapt : Text → Time → Result (Record × Envelope)
  pub append : Record → S → S × Result (Unit {0})
  pub publish : Option (Envelope → P → P × Result (Unit {0}))

module _ {S P : Type 0} where
  abbrev pub go_on : Run S P → (Progress S P → Run S P) → Run S P
  go_on (done, err e) k = (done, err e)
  go_on (done, ok u) k = k done

  abbrev pub persisted : Progress S P → S × Result (Unit {0}) → Run S P
  persisted done (s, err e) = (record done { store = s }, err e)
  persisted done (s, ok u) = (
    record done {
      store = s;
      counts = record {
        files = done.counts.files + 1;
        persisted = done.counts.persisted + 1;
        published = done.counts.published;
      };
    },
    ok tt,
  )

  abbrev pub published : Progress S P → P × Result (Unit {0}) → Run S P
  published done (p, err e) = (record done { queue = p }, err e)
  published done (p, ok u) = (
    record done {
      queue = p;
      counts = record {
        files = done.counts.files;
        persisted = done.counts.persisted;
        published = done.counts.published + 1;
      };
    },
    ok tt,
  )

  -- `if service.Publisher != nil`
  unfoldable pub publish_envelope :
      Option (Envelope → P → P × Result (Unit {0})) → Envelope → Progress S P → Run S P
  publish_envelope none envelope done = (done, ok tt)
  publish_envelope (some publish) envelope done = published done (publish envelope done.queue)

  module _ (service : Service S P) (read : Text → Result Text) (clock : ℕ → Time) where
    abbrev pub handle_adapted : Result (Record × Envelope) → Progress S P → Run S P
    handle_adapted (err e) done = (done, err e)
    handle_adapted (ok (r, envelope)) done =
        go_on (persisted done (service.append r done.store))
          (λ done. publish_envelope service.publish envelope done)

    abbrev pub handle_payload : ℕ → Result Text → Progress S P → Run S P
    handle_payload i (err e) done = (done, err e)
    handle_payload i (ok payload) done = handle_adapted (service.adapt payload (clock i)) done

    -- one round of the loop, of which `i` numbers the calls of ctx.Err() and of the clock
    unfoldable pub handle_file : Option Error → ℕ → Text → Progress S P → Run S P
    unfolding publish_envelope
    handle_file (some e) i path done = (done, err e)
    handle_file none i path done = handle_payload i (read path) done

    unfoldable pub handle_files : Context → ℕ → List Text → Progress S P → Run S P
    unfolding handle_file
    handle_files ctx i [] done = (done, ok tt)
    handle_files ctx i (path ∷ paths) done =
        go_on (handle_file (ctx i) i path done) (handle_files ctx (suc i) paths)

    abbrev pub handle_listed : Context → Result (List Text) → Progress S P → Run S P
    handle_listed ctx (err e) done = (done, err e)
    handle_listed ctx (ok files) done = handle_files ctx 0 files done

    -- the checks of Run and its list of files, then the loop
    unfoldable pub run :
        (Config → Result (Unit {0}))
        → Config
        → Bool
        → Text
        → (Text → Result (List Text))
        → Context
        → Progress S P
        → Run S P
    unfolding handle_files effective_input_path
    run validate cfg has_store input list ctx done =
        handle_listed ctx
          (do
            validate cfg
            fail_if (not has_store) (invalid (codes "raw store is required"))
            fail_if (is_blank (effective_input_path cfg input)) (required (codes "input directory"))
            files ← list (effective_input_path cfg input)
            fail_if (is_empty files) (invalid (codes "no JSON fixture files found"))
            ok files)
          done

-- Adapt with the clock's time as the time of ingestion, for both packages
unfoldable pub adapt_radius :
    Stamps → Json Radius.AccountingEvent → Config → Text → Time → Result (Record × Envelope)
unfolding Radius.adapt
adapt_radius stamps json cfg payload now = do
  adapted ← Radius.adapt stamps json cfg payload now now
  ok (adapted.raw, adapted.envelope)

unfoldable pub adapt_access :
    Stamps → Json Auth.AuthEvent → Config → Text → Time → Result (Record × Envelope)
unfolding Auth.adapt
adapt_access stamps json cfg payload now = do
  adapted ← Auth.adapt stamps json cfg payload now now
  ok (adapted.raw, adapted.envelope)

module _ {S P : Type 0} (stamps : Stamps) (append : Record → S → S × Result (Unit {0}))
    (publish : Option (Envelope → P → P × Result (Unit {0}))) (read : Text → Result Text)
    (clock : ℕ → Time) where
  -- Run of internal/services/ingest
  unfoldable pub run_radius :
      Json Radius.AccountingEvent
      → Config
      → Bool
      → Text
      → (Text → Result (List Text))
      → Context
      → Progress S P
      → Run S P
  unfolding run adapt_radius Radius.validate_config
  run_radius json cfg =
      run (record { adapt = adapt_radius stamps json cfg; append = append; publish = publish }) read
        clock Radius.validate_config cfg

  -- Run of internal/services/accessingest
  unfoldable pub run_access :
      Json Auth.AuthEvent
      → Config
      → Bool
      → Text
      → (Text → Result (List Text))
      → Context
      → Progress S P
      → Run S P
  unfolding run adapt_access Auth.validate_config
  run_access json cfg =
      run (record { adapt = adapt_access stamps json cfg; append = append; publish = publish }) read
        clock Auth.validate_config cfg
