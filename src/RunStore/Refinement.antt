-- ===== src/RunStore/Refinement.antt =====
-- The file store refines the memory store, as long as versions come in order and fit.
use semantic_intelligence_la.Base.Dict.{lookup, lookup-Each}
use semantic_intelligence_la.Storage.JsonLines.{background, Codec, sound_disk, of_option, fold_left}
use semantic_intelligence_la.Storage.Latest.{keep_latest, write, keep_latest-lookup}
use semantic_intelligence_la.RunStore.Records.{Record, clone_record}
use semantic_intelligence_la.RunStore.Backends.{
  MemoryStore, memory_get, accept_id, file_get, scan_file, merge,
}
use semantic_intelligence_la.Base.{
  Bool-cases, is_empty, All, Text, trim_space, not_found, ok, ◌>>=◌, ◌≡◌, refl, sym, ap, ◌∙◌, inl,
  inr, none, List, [],
}
use semantic_intelligence_la.RunStore.Replay.{
  run_id, memory_all, file_all, history, Fits, IsOrdered, IsNormal, IsChronological-of_IsOrdered,
  history-IsNormal, memory_all-history, file_all-Reads, scan_file-Reads, written-IsNormal,
  found_clone,
}

same_answer :
    (codec : Codec Record) (rs : List Record) (k : Text)
    → All (Fits codec) (history rs)
    → IsOrdered [] (history rs)
    → scan_file codec background k (file_all codec none rs)
      ≡ (of_option not_found (lookup k (memory_all [] rs)) >>= λ r. ok (clone_record r))
unfolding lookup
same_answer codec rs k fits ordered =
    let held : List Record = history rs in
    let normal : All IsNormal held = history-IsNormal rs in
    let m : MemoryStore = fold_left (write run_id merge) [] held in
    let kept : fold_left (keep_latest run_id merge k) none held ≡ lookup k m =
      keep_latest-lookup run_id merge k [] held
        (IsChronological-of_IsOrdered [] held normal ordered) in
    rw memory_all-history (
      scan_file-Reads codec k (file_all codec none rs) held
        (file_all-Reads codec none [] rs tt fits)
      ∙ ap (of_option not_found) kept
      ∙ sym (
          found_clone (lookup k m)
            (λ r e. lookup-Each _ k m (written-IsNormal [] held tt normal) e)))

-- Start from no file and an empty map, and make the same upserts of both stores, refused ones
-- included. If the accepted records have JSON lines that fit the scanner's buffer, and each
-- supersedes the version of it that is stored when it comes (it was updated later, or at the same
-- time and completed later), then Get returns the same of both stores, for every run id.
pub file_get-memory_get :
    (codec : Codec Record) (rs : List Record) (id : Text)
    → All (Fits codec) (history rs)
    → IsOrdered [] (history rs)
    → file_get codec background sound_disk (file_all codec none rs) id
      ≡ memory_get background (memory_all [] rs) id
unfolding file_get memory_get accept_id
file_get-memory_get codec rs id fits ordered = elim (Bool-cases (is_empty (trim_space id))) [
  | inl blank ↦ rw blank refl
  | inr named ↦ rw named (same_answer codec rs (trim_space id) fits ordered)
]
