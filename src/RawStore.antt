-- ===== src/RawStore.antt =====
-- internal/storage/raw/store.go: the store of raw evidence, in memory or in one file per source.
-- cloneRecord copies deeply, and is the identity on values.
pub mod Laws
mod Tests
use semantic_intelligence_la.Base.Dict.{Dict, lookup, insert}
use semantic_intelligence_la.Contracts.Evidence.{Record, validate}
use semantic_intelligence_la.Storage.JsonLines.{
  Context, Disk, File, contents, append_line, on_ok, err_decode, of_option,
}
use semantic_intelligence_la.Base.{
  leb, ◌==◌, if◌then◌else◌, filter_by, is_empty, Text, codes, CharTables, trim_func, trim_space,
  is_blank, to_lower, equal_fold, Error, Result, ok, err, ◌>>=◌, ◌>>◌, check_context, ℕ, ◌+◌, ◌≡◌,
  Bool, true, false, ◌&&◌, ◌||◌, Option, none, some, List, [], ◌∷◌, ◌++◌, map, arith,
}

-- what the switch over the code points of a name keeps
unfoldable pub keeps_code : ℕ → Bool
keeps_code c = (leb 97 c && leb c 122) || (leb 48 c && leb c 57)

abbrev pub events_name : Text
events_name = codes "events"

abbrev or_events : Text → Text
or_events [] = events_name
or_events (c ∷ s) = c ∷ s

-- sourceFileName; 45 is the hyphen
unfoldable pub source_file_name : ⦃u : CharTables⦄ → Text → Text
unfolding keeps_code
source_file_name source =
    let name = or_events (to_lower (trim_space source)) in
    or_events (trim_func (λ c. c == 45) (map (λ c. if keeps_code c then c else 45) name))
    ++ codes ".jsonl"

abbrev pub MemoryStore : Type 0
MemoryStore = List Record

module _ (valid : Text → Bool) where
  -- the checks of Append before the store is touched
  unfoldable pub accept : Context → Record → Result Record
  accept ctx r = do check_context (ctx 0); validate valid r; ok r

  unfoldable pub memory_append : Context → MemoryStore → Record → MemoryStore × Result (Unit {0})
  unfolding accept
  memory_append ctx store r = on_ok store (accept ctx r) (λ a. (store ++ a ∷ [], ok tt))

-- the test of MemoryStore.Replay
unfoldable pub of_source : ⦃u : CharTables⦄ → Text → Record → Bool
of_source source r = is_blank source || equal_fold (trim_space r.source) (trim_space source)

unfoldable pub memory_replay :
    ⦃u : CharTables⦄ → Context → MemoryStore → Text → Result (List Record)
unfolding filter_by of_source
memory_replay ctx store source = do check_context (ctx 0); ok (filter_by (of_source source) store)

-- the files of the root directory
abbrev pub Files : Type 0
Files = Dict (List Text)

abbrev or_kept : Files → Text → File → Files
or_kept files name none = files
or_kept files name (some lines) = insert name lines files

-- os.ReadFile: the file is there, or is not, or cannot be read
abbrev pub read_file : Option Error → Files → Text → Result File
read_file (some e) files name = err e
read_file none files name = ok (lookup name files)

-- json.Encoder.Encode and json.Unmarshal for Record. Encode writes one line, and writes the
-- payload, a json.RawMessage, as json.Compact leaves it, which keeps valid JSON valid. The empty
-- text is not valid JSON.
pub record RecordCodec (valid : Text → Bool) : Type 0 where
  pub encode : Record → Result Text
  pub decode : Text → Option Record
  pub compact : Text → Text
  pub decode-encode :
      (r : Record) (line : Text)
      → encode r ≡ ok line
      → decode line ≡ some (record r { payload = compact r.payload })
  pub valid-compact : (payload : Text) → valid payload ≡ true → valid (compact payload) ≡ true
  pub valid_nonempty : (payload : Text) → valid payload ≡ true → is_empty payload ≡ false

module _ ⦃u : CharTables⦄ (valid : Text → Bool) (codec : RecordCodec valid) where
  abbrev pub after_write : Files → Text → File × Result (Unit {0}) → Files × Result (Unit {0})
  after_write files name (file, answer) = (or_kept files name file, answer)

  unfoldable pub file_append : Context → Disk → Files → Record → Files × Result (Unit {0})
  unfolding accept append_line source_file_name
  file_append ctx disk files r = on_ok files (accept valid ctx r) (λ a.
      after_write files (source_file_name a.source)
        (append_line disk (lookup (source_file_name a.source) files) (codec.encode a)))

  unfoldable pub read_record : Text → Result Record
  read_record line = do r ← of_option err_decode (codec.decode line); validate valid r; ok r

  -- the loop of FileStore.Replay over the lines. That the whole text is trimmed before it is split
  -- takes white space away that the loop passes over.
  unfoldable pub read_lines : List Text → Result (List Record)
  unfolding read_record
  read_lines [] = ok []
  read_lines (line ∷ lines) =
      let rest = read_lines lines in
      if is_blank line then rest else (do r ← read_record (trim_space line); rs ← rest; ok (r ∷ rs))

  unfoldable pub file_replay : Context → Option Error → Files → Text → Result (List Record)
  unfolding read_lines source_file_name
  file_replay ctx fault files source = do
    check_context (ctx 0)
    file ← read_file fault files (source_file_name source)
    read_lines (contents file)
