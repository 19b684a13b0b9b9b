-- ===== src/Pipeline/Ingest/Tests.antt =====
-- The theorem at a directory of two files, of which the publisher refuses every envelope.
use semantic_intelligence_la.Base.Times.{Time}
use semantic_intelligence_la.Contracts.Evidence.{Envelope, validate, validate_envelope}
use semantic_intelligence_la.RawStore.{memory_append}
use semantic_intelligence_la.Storage.JsonLines.{background}
use semantic_intelligence_la.Adapters.Shared.{Config}
use semantic_intelligence_la.Adapters.Tests.{stamps, json_of, accounting, radius_config, payload}
use semantic_intelligence_la.Pipeline.Ingest.{run_radius, extension, list_json_files, Entry}
use semantic_intelligence_la.Pipeline.Ingest.Laws.{
  Done, AllPersisted, append_to, keep_published, run_radius-publishes_persisted,
}
use semantic_intelligence_la.Base.{
  length, some, Text, codes, ascii, eq_text, is_blank, equal_fold, not_found, Result, ok, err,
  less_text, ℕ, ◌≡◌, refl, Bool, true, false, List, [], ◌∷◌,
}

abbrev refuse : Envelope → Result (Unit {0})
refuse envelope = err not_found

abbrev nothing_ingested : Done
nothing_ingested = record {
  store = [];
  queue = [];
  counts = record { files = 0; persisted = 0; published = 0 };
}

abbrev read_any : Text → Result Text
read_any path = ok payload

abbrev clock : ℕ → Time
clock i = 7

abbrev no_check : Config → Result (Unit {0})
no_check cfg = ok tt

abbrev directory : Text → Result (List Text)
directory root = ok (codes "a.json" ∷ codes "b.json" ∷ [])

abbrev entry : Text → Bool → Entry
entry name is_dir = record { path = name; name = name; is_dir = is_dir }

-- names in any case and in any order, without the directory and the other extension
listed :
    list_json_files ⦃u = ascii⦄ (ok true) (
      ok (
        entry (codes "b.JSON") false
        ∷ entry (codes "d.json") true
        ∷ entry (codes "c.json.gz") false
        ∷ entry (codes "a.json") false
        ∷ []))
    ≡ ok (codes "a.json" ∷ codes "b.JSON" ∷ [])
unfolding list_json_files extension equal_fold eq_text less_text
listed = refl

abbrev ended : Done
ended =
    (run_radius stamps (append_to (json_of accounting).valid) (some (keep_published refuse))
      read_any clock (json_of accounting) radius_config true [] directory background
      nothing_ingested).0

-- the first record stays in the store when its envelope is refused
left : (length ended.store ≡ 1) × (length ended.queue ≡ 1) × (ended.counts.published ≡ 0)
unfolding run_radius is_blank eq_text validate validate_envelope memory_append
left = (refl, refl, refl)

run_radius-publishes_persisted_example : AllPersisted ended
run_radius-publishes_persisted_example =
    run_radius-publishes_persisted (json_of accounting).valid refuse stamps (json_of accounting)
      radius_config read_any clock true [] directory background nothing_ingested tt
