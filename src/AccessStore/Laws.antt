-- ===== src/AccessStore/Laws.antt =====
-- What a search returns, and that the file answers as the memory does.
use semantic_intelligence_la.Contracts.Access.{Event, validate}
use semantic_intelligence_la.Storage.JsonLines.{background, Codec, sound_disk, File, fold_left}
use semantic_intelligence_la.Storage.EventLog.{
  checked, appends-accepted, read_line, file-Reads, search_lines-Reads,
}
use semantic_intelligence_la.Storage.Replay.{accepted, Fits}
use semantic_intelligence_la.Storage.Search.{search_list, IsAnswer, rest_of, search_list-IsAnswer}
use semantic_intelligence_la.AccessStore.{
  Query, newer, matches, MemoryStore, accept, memory_append, memory_search, file_append,
  file_search,
}
use semantic_intelligence_la.Base.{
  All, CharTables, ok, IsStrictWeak, ◌≡◌, refl, sym, ap, ◌∙◌, true, false, none, List, [], arith,
}

newer_asym : (x y : Event) → newer x y ≡ true → newer y x ≡ false
unfolding newer
newer_asym x y h = ground arith

newer_neg_trans : (x y z : Event) → newer y x ≡ false → newer z y ≡ false → newer z x ≡ false
unfolding newer
newer_neg_trans x y z h k = ground arith

pub newer-IsStrictWeak : IsStrictWeak newer
newer-IsStrictWeak = record { asym = newer_asym; neg_trans = newer_neg_trans }

-- the store after a sequence of appends, whatever each of them returns
abbrev pub memory_all : MemoryStore → List Event → MemoryStore
memory_all = fold_left (λ s e. (memory_append background s e).0)

abbrev pub file_all : Codec Event → File → List Event → File
file_all codec = fold_left (λ f e. (file_append codec background sound_disk f e).0)

-- A search of the memory store, on a context that is not ended, answers: every event that it
-- returns matches the query, they are sorted newest first, they are at most as many as a positive
-- limit says, and they and the events `rest_of` left out are together exactly the stored events
-- that match, none left out being newer than one returned.
pub memory_search-IsAnswer_of_access :
    ⦃u : CharTables⦄
    → (store : MemoryStore) (filter : Query)
    → (found : List Event) × (memory_search background store filter ≡ ok found)
      × IsAnswer
          (matches filter)
          newer
          filter.limit
          store
          found
          (rest_of (matches filter) newer newer-IsStrictWeak filter.limit store)
unfolding memory_search
memory_search-IsAnswer_of_access store filter = (
  search_list (matches filter) newer filter.limit store,
  refl,
  search_list-IsAnswer (matches filter) newer newer-IsStrictWeak filter.limit store,
)

-- Make the same appends of a memory store and of a file, from nothing, refused ones included. If
-- the accepted events have JSON lines that fit the scanner's buffer, every search returns the same
-- of both.
pub file_search-memory_search_of_access :
    ⦃u : CharTables⦄
    → (codec : Codec Event) (events : List Event) (filter : Query)
    → All (Fits codec) (accepted (accept background) events)
    → file_search codec background sound_disk (file_all codec none events) filter
      ≡ memory_search background (memory_all [] events) filter
unfolding file_search memory_search memory_append file_append
file_search-memory_search_of_access codec events filter fits =
    let held = accepted (checked validate) events in
    search_lines-Reads (matches filter) newer filter.limit (read_line validate codec)
      (file_all codec none events) held (file-Reads validate codec events fits)
    ∙ ap (λ s. ok (search_list (matches filter) newer filter.limit s))
        (sym (appends-accepted validate [] events))
