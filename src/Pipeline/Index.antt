-- ===== src/Pipeline/Index.antt =====
-- internal/services/index/service.go: unified events become retrieval documents.
pub mod Documents
pub mod Terms
pub mod Laws
pub mod Completion
pub mod Found
mod Tests
use semantic_intelligence_la.Contracts.Sessions
use semantic_intelligence_la.Contracts.Access
use semantic_intelligence_la.Contracts.Retrieval.{Document}
use semantic_intelligence_la.Storage.JsonLines.{
  Context, too_long, err_too_long, of_option, err_decode,
}
use semantic_intelligence_la.Pipeline.Index.Documents.{
  build_session_document, build_access_document,
}
use semantic_intelligence_la.Base.{
  if◌then◌else◌, Text, codes, CharTables, eq_text, trim_space, is_blank, Error, unsupported,
  invalid, Result, ok, err, ◌>>=◌, ◌>>◌, ℕ, suc, ◌+◌, Bool, not, Option, none, some, List, [], ◌∷◌,
  arith,
}

-- json.Unmarshal of a line: into the probe, which has the event's id and type, and into the events
pub record Decoders : Type 0 where
  pub probe : Text → Option (Text × Text)
  pub session : Text → Option Sessions.Event
  pub access : Text → Option Access.Event

-- Result of the package
pub record Counts : Type 0 where
  pub events : ℕ
  pub indexed : ℕ

abbrev pub no_counts : Counts
no_counts = record { events = 0; indexed = 0 }

module _ ⦃u : CharTables⦄ (json : Decoders) where
  -- the `switch` of buildDocument
  unfoldable pub build_by_type : Text → Text → Result Document
  unfolding build_session_document build_access_document
  build_by_type event_type line =
      if eq_text (trim_space event_type) Sessions.event_type_name
      then (do
        event ← of_option err_decode (json.session line)
        Sessions.validate event
        build_session_document event)
      else if eq_text (trim_space event_type) Access.event_type_name
      then (do
        event ← of_option err_decode (json.access line)
        Access.validate event
        build_access_document event)
      else err (unsupported (codes "unified event type") event_type)

  unfoldable pub build_document : Text → Result Document
  unfolding build_by_type
  build_document line = do
    (event_id, event_type) ← of_option err_decode (json.probe line)
    build_by_type event_type line

  module _ {S : Type 0} (append : Document → S → S × Result (Unit {0})) where
    abbrev pub Run : Type 0
    Run = (S × Counts) × Result (Unit {0})

    abbrev pub appended : Counts → S × Result (Unit {0}) → Run
    appended n (s, err e) = ((s, n), err e)
    appended n (s, ok u) = ((s, record { events = n.events + 1; indexed = n.indexed + 1 }), ok tt)

    abbrev pub store_built : S → Counts → Result Document → Run
    store_built s n (err e) = ((s, n), err e)
    store_built s n (ok document) = appended n (append document s)

    -- one round of the loop
    unfoldable pub index_line : Option Error → Text → S → Counts → Run
    unfolding build_document
    index_line fault line s n = if too_long line then ((s, n), err err_too_long) else (elim fault [
      | some e ↦ ((s, n), err e)
      | none ↦
          if is_blank line
          then ((s, n), ok tt)
          else store_built s n (build_document (trim_space line))
    ])

    abbrev pub go_on : Run → (S → Counts → Run) → Run
    go_on ((s, n), err e) k = ((s, n), err e)
    go_on ((s, n), ok u) k = k s n

    -- the loop; `i` is the number of the round's call of ctx.Err()
    unfoldable pub index_lines : Context → ℕ → List Text → S → Counts → Run
    unfolding index_line
    index_lines ctx i [] s n = ((s, n), ok tt)
    index_lines ctx i (line ∷ lines) s n =
        go_on (index_line (ctx i) line s n) (index_lines ctx (suc i) lines)

    -- the checks of Run, then the loop
    unfoldable pub run : Bool → Bool → Context → List Text → S → Run
    unfolding index_lines
    run has_store has_reader ctx lines s =
        if not has_store
        then ((s, no_counts), err (invalid (codes "retrieval metadata store is required")))
        else if not has_reader
        then ((s, no_counts), err (invalid (codes "input reader is required")))
        else index_lines ctx 0 lines s no_counts
