-- ===== src/RunStore/Backends.antt =====
-- MemoryStore and FileStore.
use semantic_intelligence_la.Base.Dict.{Dict, lookup, insert}
use semantic_intelligence_la.Storage.JsonLines.{
  Context, Codec, Disk, File, append_line, on_ok, err_decode, of_option, scan,
}
use semantic_intelligence_la.RunStore.Records.{
  Record, clone_record, normalize_record, validate_record, pick_latest,
}
use semantic_intelligence_la.Base.{
  if◌then◌else◌, is_empty, Text, codes, eq_text, trim_space, required, not_found, Result, ok, err,
  ◌>>=◌, ◌>>◌, fail_if, check_context, Option, none, some,
}

-- what Upsert does with a record before it is stored: the record to store, or the refusal
unfoldable pub accept : Context → Record → Result Record
accept ctx r = do
  check_context (ctx 0)
  let normal = normalize_record r
  validate_record normal
  ok normal

abbrev pub MemoryStore : Type 0
MemoryStore = Dict Record

unfoldable pub memory_upsert : Context → MemoryStore → Record → MemoryStore × Result (Unit {0})
unfolding accept
memory_upsert ctx store r =
    on_ok store (accept ctx r) (λ normal. (insert normal.run.id (clone_record normal) store, ok tt))

-- the checks of the arguments of Get: the run id to look for
unfoldable pub accept_id : Context → Text → Result Text
accept_id ctx run_id = do
  check_context (ctx 0)
  let id = trim_space run_id
  fail_if (is_empty id) (required (codes "run id"))
  ok id

unfoldable pub memory_get : Context → MemoryStore → Text → Result Record
unfolding accept_id
memory_get ctx store run_id = do
  id ← accept_id ctx run_id
  r ← of_option not_found (lookup id store)
  ok (clone_record r)

-- `latest` and `found` as one Option
unfoldable pub merge : Option Record → Record → Record
merge none r = clone_record r
merge (some latest) r = pick_latest latest r

unfoldable pub keep : Text → Option Record → Record → Option Record
unfolding merge
keep run_id found r = if eq_text r.run.id run_id then some (merge found r) else found

module _ (codec : Codec Record) where
  unfoldable pub file_upsert : Context → Disk → File → Record → File × Result (Unit {0})
  unfolding accept
  file_upsert ctx disk file r =
      on_ok file (accept ctx r)
        (λ normal. append_line disk file (codec.encode (clone_record normal)))

  -- one line of the scan: json.Unmarshal, normalizeRecord and validateRecord
  unfoldable pub read_record : Text → Result Record
  read_record line = do
    decoded ← of_option err_decode (codec.decode line)
    let r = normalize_record decoded
    validate_record r
    ok r

  -- the part of Get behind os.Open
  unfoldable pub scan_file : Context → Text → File → Result Record
  unfolding read_record keep
  scan_file ctx id none = err not_found
  scan_file ctx id (some lines) = do
    found ← scan ctx read_record (keep id) 1 none lines
    of_option not_found found

  unfoldable pub file_get : Context → Disk → File → Text → Result Record
  unfolding accept_id scan_file
  file_get ctx disk file run_id = do
    id ← accept_id ctx run_id
    elim disk.open_file [ some e ↦ err e | none ↦ scan_file ctx id file ]
