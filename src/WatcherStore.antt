-- ===== src/WatcherStore.antt =====
-- internal/storage/metadata/agents/watcher_state.go: the states of the watcher, by key.
-- cloneWatcherState copies deeply, and is the identity on values.
pub mod Laws
pub mod Refinement
mod Tests
use semantic_intelligence_la.Base.Times.{Time, is_zero, after}
use semantic_intelligence_la.Base.Dict.{Dict, lookup, insert}
use semantic_intelligence_la.Storage.JsonLines.{
  Context, Codec, Disk, File, scan, append_line, on_ok, of_option, err_decode,
}
use semantic_intelligence_la.Base.{
  if◌then◌else◌, Text, codes, eq_text, trim_space, is_blank, required, not_found, Result, ok, err,
  ◌>>=◌, ◌>>◌, fail_if, check_context, ◌&&◌, Option, none, some, arith,
}

pub record WatcherState : Type 0 where
  pub key : Text
  pub watcher_name : Text
  pub tenant_id : Text
  pub subject_id : Text
  pub last_event_id : Text
  pub last_occurred_at : Option Time
  pub last_run_id : Text
  pub updated_at : Time

unfoldable pub normalize_watcher_state : WatcherState → WatcherState
normalize_watcher_state state = record state {
  key = trim_space state.key;
  watcher_name = trim_space state.watcher_name;
  tenant_id = trim_space state.tenant_id;
  subject_id = trim_space state.subject_id;
  last_event_id = trim_space state.last_event_id;
  last_run_id = trim_space state.last_run_id;
}

unfoldable pub validate_watcher_state : WatcherState → Result (Unit {0})
validate_watcher_state state = do
  fail_if (is_blank state.key) (required (codes "key"))
  fail_if (is_blank state.watcher_name) (required (codes "watcher_name"))
  fail_if (is_blank state.tenant_id) (required (codes "tenant_id"))
  fail_if (is_blank state.subject_id) (required (codes "subject_id"))
  fail_if (is_blank state.last_event_id) (required (codes "last_event_id"))
  fail_if (is_zero state.updated_at) (required (codes "updated_at"))

-- the checks of UpsertWatcherState before the store is touched
unfoldable pub accept : Context → WatcherState → Result WatcherState
unfolding normalize_watcher_state validate_watcher_state
accept ctx state = do
  check_context (ctx 0)
  validate_watcher_state (normalize_watcher_state state)
  ok (normalize_watcher_state state)

-- the checks of GetWatcherState: the key to look for
unfoldable pub accept_key : Context → Text → Result Text
accept_key ctx key = do
  check_context (ctx 0)
  fail_if (is_blank key) (required (codes "watcher state key"))
  ok (trim_space key)

abbrev pub MemoryWatcherStateStore : Type 0
MemoryWatcherStateStore = Dict WatcherState

unfoldable pub memory_upsert :
    Context → MemoryWatcherStateStore → WatcherState → MemoryWatcherStateStore × Result (Unit {0})
unfolding accept
memory_upsert ctx store state =
    on_ok store (accept ctx state) (λ normal. (insert normal.key normal store, ok tt))

unfoldable pub memory_get : Context → MemoryWatcherStateStore → Text → Result WatcherState
unfolding accept_key
memory_get ctx store key = do wanted ← accept_key ctx key; of_option not_found (lookup wanted store)

-- `latest` and `found` as one Option: the first of the newest states with the key
unfoldable pub keep : Text → Option WatcherState → WatcherState → Option WatcherState
keep key none state = if eq_text state.key key then some state else none
keep key (some latest) state =
    if eq_text state.key key && after state.updated_at latest.updated_at
    then some state
    else some latest

module _ (codec : Codec WatcherState) where
  unfoldable pub file_upsert : Context → Disk → File → WatcherState → File × Result (Unit {0})
  unfolding accept
  file_upsert ctx disk file state =
      on_ok file (accept ctx state) (λ normal. append_line disk file (codec.encode normal))

  -- one line of the scan
  unfoldable pub read_state : Text → Result WatcherState
  read_state line = do
    decoded ← of_option err_decode (codec.decode line)
    validate_watcher_state (normalize_watcher_state decoded)
    ok (normalize_watcher_state decoded)

  -- the part of GetWatcherState behind os.Open
  unfoldable pub scan_file : Context → Text → File → Result WatcherState
  unfolding read_state keep
  scan_file ctx key none = err not_found
  scan_file ctx key (some lines) = do
    found ← scan ctx read_state (keep key) 1 none lines
    of_option not_found found

  unfoldable pub file_get : Context → Disk → File → Text → Result WatcherState
  unfolding accept_key scan_file
  file_get ctx disk file key = do
    wanted ← accept_key ctx key
    elim disk.open_file [ some e ↦ err e | none ↦ scan_file ctx wanted file ]
