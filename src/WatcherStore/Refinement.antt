-- ===== src/WatcherStore/Refinement.antt =====
-- The file store of the watcher's states and the memory store, after the same upserts.
use semantic_intelligence_la.Base.Dict.{Dict, lookup, insert}
use semantic_intelligence_la.Base.Times.{after}
use semantic_intelligence_la.Storage.JsonLines.{
  background, Codec, sound_disk, File, contents, of_option, fold_left, Reads, scan-fold_left,
}
use semantic_intelligence_la.Storage.Replay.{accepted, Fits, puts-Reads}
use semantic_intelligence_la.Storage.Latest.{
  keep_latest, write, IsChronological, keep_latest-lookup,
}
use semantic_intelligence_la.WatcherStore.{
  WatcherState, normalize_watcher_state, validate_watcher_state, accept, accept_key,
  MemoryWatcherStateStore, memory_upsert, memory_get, keep, file_upsert, read_state, scan_file,
  file_get,
}
use semantic_intelligence_la.Base.{
  if◌then◌else◌, Bool-cases, All, Text, trim_space, is_blank, not_found, ok, Result-cases,
  Meets-eq-ok, Meets-keep, trim_space_idempotent, ◌<◌, ◌≡◌, refl, ap, ◌∙◌, inl, inr, Option, none,
  some, List, [], ◌∷◌, arith,
}

-- the stores after a sequence of upserts, whatever each of them returns
abbrev pub memory_all : MemoryWatcherStateStore → List WatcherState → MemoryWatcherStateStore
memory_all = fold_left (λ m s. (memory_upsert background m s).0)

abbrev pub file_all : Codec WatcherState → File → List WatcherState → File
file_all codec = fold_left (λ f s. (file_upsert codec background sound_disk f s).0)

-- the accepted states, in the normal form that the stores keep
abbrev pub history : List WatcherState → List WatcherState
history = accepted (accept background)

-- the state was updated later than the version of its key that is stored when it comes
abbrev pub Newer : Option WatcherState → WatcherState → Type 0
Newer none state = Unit
Newer (some latest) state = latest.updated_at < state.updated_at

abbrev pub IsOrdered : Dict WatcherState → List WatcherState → Type 0
IsOrdered m [] = Unit
IsOrdered m (s ∷ states) = Newer (lookup s.key m) s × IsOrdered (insert s.key s m) states

abbrev key_of : WatcherState → Text
key_of state = state.key

-- the first of the newest of two versions
abbrev merge : Option WatcherState → WatcherState → WatcherState
merge none state = state
merge (some latest) state = if after state.updated_at latest.updated_at then state else latest

merge_of_Newer : (o : Option WatcherState) (s : WatcherState) → Newer o s → merge o s ≡ s
merge_of_Newer none s h = refl
merge_of_Newer (some latest) s h = ground (arith, h)

IsChronological-of_Newer :
    (m : Dict WatcherState) (states : List WatcherState)
    → IsOrdered m states
    → IsChronological key_of merge m states
IsChronological-of_Newer m [] h = tt
IsChronological-of_Newer m (s ∷ states) (newer, h) =
    (merge_of_Newer (lookup s.key m) s newer, IsChronological-of_Newer (insert s.key s m) states h)

keep-keep_latest :
    (k : Text) (found : Option WatcherState) (s : WatcherState)
    → keep k found s ≡ keep_latest key_of merge k found s
unfolding keep keep_latest
keep-keep_latest k none s = refl
keep-keep_latest k (some latest) s = ground arith

keeps :
    (k : Text) (found : Option WatcherState) (states : List WatcherState)
    → fold_left (keep k) found states ≡ fold_left (keep_latest key_of merge k) found states
keeps k found [] = refl
keeps k found (s ∷ states) =
    rw (keep-keep_latest k found s) (keeps k (keep_latest key_of merge k found s) states)

memory_all-history :
    (m : MemoryWatcherStateStore) (states : List WatcherState)
    → memory_all m states ≡ fold_left (write key_of merge) m (history states)
unfolding accepted memory_upsert
memory_all-history m [] = refl
memory_all-history m (s ∷ states) = elim (Result-cases (accept background s)) [
  | inl (n, e) ↦ rw e (memory_all-history (insert n.key n m) states)
  | inr (x, e) ↦ rw e (memory_all-history m states)
]

normalize_watcher_state_idempotent :
    (s : WatcherState)
    → normalize_watcher_state (normalize_watcher_state s) ≡ normalize_watcher_state s
unfolding normalize_watcher_state
normalize_watcher_state_idempotent s = simp trim_space_idempotent

accept-IsNormal :
    (s n : WatcherState)
    → accept background s ≡ ok n
    → (validate_watcher_state n ≡ ok tt) × (normalize_watcher_state n ≡ n)
unfolding accept
accept-IsNormal s n h =
    let normal = normalize_watcher_state s in
    let IsNormal : WatcherState → Type 0 =
      λ n. (validate_watcher_state n ≡ ok tt) × (normalize_watcher_state n ≡ n) in
    Meets-eq-ok IsNormal (accept background s) n
      (Meets-keep IsNormal (validate_watcher_state normal) _
        (λ u e. (e, normalize_watcher_state_idempotent s)))
      h

module _ (codec : Codec WatcherState) where
  read_state-encode :
      (s n : WatcherState) (line : Text)
      → accept background s ≡ ok n
      → codec.encode n ≡ ok line
      → read_state codec line ≡ ok n
  unfolding read_state
  read_state-encode s n line h encoded =
      let (valid, normal) = accept-IsNormal s n h in
      rw (codec.decode-encode n line encoded, normal, valid) refl

  scan_file-Reads :
      (k : Text) (file : File) (held : List WatcherState)
      → Reads (read_state codec) (contents file) held
      → scan_file codec background k file ≡ of_option not_found (fold_left (keep k) none held)
  unfolding scan_file
  scan_file-Reads k none [] h = refl
  scan_file-Reads k none (s ∷ held) h = absurd h
  scan_file-Reads k (some lines) held h =
      rw (scan-fold_left (read_state codec) (keep k) 1 none lines held h) refl

  same_answer :
      (states : List WatcherState) (k : Text)
      → All (Fits codec) (history states)
      → IsOrdered [] (history states)
      → scan_file codec background k (file_all codec none states)
        ≡ of_option not_found (lookup k (memory_all [] states))
  unfolding lookup file_upsert
  same_answer states k fits ordered =
      let held : List WatcherState = history states in
      rw memory_all-history (
        scan_file-Reads k (file_all codec none states) held (
          puts-Reads codec (accept background) (read_state codec) read_state-encode none [] states
            tt fits)
        ∙ ap (of_option not_found) (
            keeps k none held
            ∙ keep_latest-lookup key_of merge k [] held (IsChronological-of_Newer [] held ordered)))

-- Start from no file and an empty map, and make the same upserts of watcher states of both stores,
-- refused ones included. If the accepted states have JSON lines that fit the scanner's buffer, and
-- each was updated later than the version of its key that is stored when it comes, then
-- GetWatcherState returns the same of both stores, for every key.
pub file_get-memory_get_of_states :
    (codec : Codec WatcherState) (states : List WatcherState) (key : Text)
    → All (Fits codec) (history states)
    → IsOrdered [] (history states)
    → file_get codec background sound_disk (file_all codec none states) key
      ≡ memory_get background (memory_all [] states) key
unfolding file_get memory_get accept_key
file_get-memory_get_of_states codec states key fits ordered = elim (Bool-cases (is_blank key)) [
  | inl blank ↦ rw blank refl
  | inr named ↦ rw named (same_answer codec states (trim_space key) fits ordered)
]
