-- ===== src/SessionStore.antt =====
-- internal/storage/metadata/sessions/store.go: the log of network session events.
-- cloneEvent copies deeply, and is the identity on values.
pub mod Laws
pub mod Tests
use semantic_intelligence_la.Base.Times.{Time, before, after, ℤ}
use semantic_intelligence_la.Contracts.Sessions.{Event, status_text, validate}
use semantic_intelligence_la.Storage.JsonLines.{
  Context, Codec, Disk, File, append_line, on_ok, err_decode, of_option, scan,
}
use semantic_intelligence_la.Storage.Search.{truncate, search_list}
use semantic_intelligence_la.Storage.Filters.{field_matches, in_window}
use semantic_intelligence_la.Base.{
  ◌==◌, if◌then◌else◌, Text, CharTables, Result, ok, err, ◌>>=◌, ◌>>◌, check_context, sort_by, ◌+◌,
  Bool, ◌&&◌, Option, none, some, List, [], ◌∷◌, ◌++◌, arith,
}

pub record Query : Type 0 where
  pub tenant_id : Text
  pub subscriber_id : Text
  pub session_id : Text
  pub status : Text
  pub nas_ip_address : Text
  pub client_ip_address : Text
  pub from : Option Time
  pub to : Option Time
  pub limit : ℤ

-- newest first, and of one instant the last ingested first
unfoldable pub newer : Event → Event → Bool
newer left right =
    if left.occurred_at == right.occurred_at
    then after left.ingested_at right.ingested_at
    else after left.occurred_at right.occurred_at

module _ ⦃u : CharTables⦄ where
  unfoldable pub matches : Query → Event → Bool
  matches filter event =
      field_matches filter.tenant_id event.tenant_id
      && field_matches filter.subscriber_id event.subscriber_id
      && field_matches filter.session_id event.session_id
      && field_matches filter.status (status_text event.status)
      && field_matches filter.nas_ip_address event.nas_ip_address
      && field_matches filter.client_ip_address event.client_ip_address
      && in_window filter.from filter.to event.occurred_at

abbrev pub MemoryStore : Type 0
MemoryStore = List Event

-- the checks of Append before the store is touched
unfoldable pub accept : Context → Event → Result Event
accept ctx event = do check_context (ctx 0); validate event; ok event

unfoldable pub memory_append : Context → MemoryStore → Event → MemoryStore × Result (Unit {0})
unfolding accept
memory_append ctx store event = on_ok store (accept ctx event) (λ e. (store ++ e ∷ [], ok tt))

unfoldable pub memory_search :
    ⦃u : CharTables⦄ → Context → MemoryStore → Query → Result (List Event)
memory_search ctx store filter = do
  check_context (ctx 0)
  ok (search_list (matches filter) newer filter.limit store)

module _ (codec : Codec Event) where
  unfoldable pub file_append : Context → Disk → File → Event → File × Result (Unit {0})
  unfolding accept
  file_append ctx disk file event =
      on_ok file (accept ctx event) (λ e. append_line disk file (codec.encode e))

  -- json.Unmarshal and Validate on one line
  unfoldable pub read_event : Text → Result Event
  read_event line = do event ← of_option err_decode (codec.decode line); validate event; ok event

  module _ ⦃u : CharTables⦄ where
    -- one round of the scan
    unfoldable pub collect : Query → List Event → Event → List Event
    collect filter results event = if matches filter event then results ++ event ∷ [] else results

    unfoldable pub scan_file : Context → Query → File → Result (List Event)
    unfolding collect read_event
    scan_file ctx filter none = ok []
    scan_file ctx filter (some lines) = do
      results ← scan ctx read_event (collect filter) 1 [] lines
      ok (truncate filter.limit (sort_by newer results))

    unfoldable pub file_search : Context → Disk → File → Query → Result (List Event)
    unfolding scan_file
    file_search ctx disk file filter = do
      check_context (ctx 0)
      elim disk.open_file [ some e ↦ err e | none ↦ scan_file ctx filter file ]
