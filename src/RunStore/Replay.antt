-- ===== src/RunStore/Replay.antt =====
-- What a sequence of upserts leaves in the memory store and in the file, read as a history of
-- accepted records.
use mathlib.Core.List.{append-nil, append_assoc}
use semantic_intelligence_la.Base.Dict.{Dict, lookup, insert, Each, insert-Each}
use semantic_intelligence_la.Storage.JsonLines.{
  background, Codec, sound_disk, File, contents, append_line, too_long, of_option, fold_left, Reads,
  Reads-append, scan-fold_left,
}
use semantic_intelligence_la.Storage.Latest.{keep_latest, write, IsChronological}
use semantic_intelligence_la.RunStore.Records.{
  Record, clone_record, normalize_record, validate_record, completed_later, pick_latest,
}
use semantic_intelligence_la.RunStore.Backends.{
  MemoryStore, accept, memory_upsert, file_upsert, scan_file, read_record, merge, keep,
}
use semantic_intelligence_la.RunStore.Normal.{
  normalize_record_idempotent, clone_record-normalize_record,
}
use semantic_intelligence_la.Base.{
  All, Text, Error, not_found, Result, ok, err, ◌>>=◌, Result-cases, ◌<◌, ◌≡◌, refl, sym, ap, ◌∙◌,
  ◌⊎◌, inl, inr, true, false, Option, none, some, List, [], ◌∷◌, ◌++◌, arith,
}

abbrev pub run_id : Record → Text
run_id r = r.run.id

-- the stores after a sequence of upserts, whatever each of them returns
abbrev pub memory_all : MemoryStore → List Record → MemoryStore
memory_all = fold_left (λ s r. (memory_upsert background s r).0)

abbrev pub file_all : Codec Record → File → List Record → File
file_all codec = fold_left (λ f r. (file_upsert codec background sound_disk f r).0)

abbrev pub add_if_ok : Result (Unit {0}) → Record → List Record → List Record
add_if_ok (ok _) r rest = r ∷ rest
add_if_ok (err _) r rest = rest

-- the normal forms of the records that pass the check
unfoldable pub history : List Record → List Record
history [] = []
history (r ∷ rs) =
    let rest = history rs in
    add_if_ok (validate_record (normalize_record r)) (normalize_record r) rest

-- a record that the file can hold: it has a JSON line that the scanner's buffer takes
abbrev pub Fits : Codec Record → Record → Type 0
Fits codec r = (line : Text) × (codec.encode r ≡ ok line) × (too_long line ≡ false)

-- `r` is later than the version `e`: updated later, or at the same time and completed later
abbrev pub Supersedes : Option Record → Record → Type 0
Supersedes none r = Unit
Supersedes (some e) r =
    (e.run.updated_at < r.run.updated_at)
    ⊎ ((e.run.updated_at ≡ r.run.updated_at)
        × (completed_later e.run.completed_at r.run.completed_at ≡ true))

-- each record supersedes the version of it that is stored when it comes
abbrev pub IsOrdered : Dict Record → List Record → Type 0
IsOrdered m [] = Unit
IsOrdered m (r ∷ rs) = Supersedes (lookup r.run.id m) r × IsOrdered (insert r.run.id r m) rs

abbrev pub IsNormal : Record → Type 0
IsNormal r = normalize_record r ≡ r

pub clone_of_IsNormal : (r : Record) → IsNormal r → clone_record r ≡ r
clone_of_IsNormal r h = ap clone_record (sym h) ∙ clone_record-normalize_record r ∙ h

pick_latest_of_Supersedes :
    (e r : Record) → IsNormal r → Supersedes (some e) r → pick_latest e r ≡ r
unfolding pick_latest
pick_latest_of_Supersedes e r n h = ground (arith, clone_of_IsNormal r n)

merge_of_Supersedes : (o : Option Record) (r : Record) → IsNormal r → Supersedes o r → merge o r ≡ r
unfolding merge
merge_of_Supersedes none r n h = clone_of_IsNormal r n
merge_of_Supersedes (some e) r n h = pick_latest_of_Supersedes e r n h

pub IsChronological-of_IsOrdered :
    (m : Dict Record) (rs : List Record)
    → All IsNormal rs
    → IsOrdered m rs
    → IsChronological run_id merge m rs
IsChronological-of_IsOrdered m [] n h = tt
IsChronological-of_IsOrdered m (r ∷ rs) (n, ns) (s, h) = (
  merge_of_Supersedes (lookup r.run.id m) r n s,
  IsChronological-of_IsOrdered (insert r.run.id r m) rs ns h,
)

pub history-IsNormal : (rs : List Record) → All IsNormal (history rs)
unfolding history
history-IsNormal [] = tt
history-IsNormal (r ∷ rs) = ground (arith, history-IsNormal rs, normalize_record_idempotent r)

-- the memory store is the map written by the history
pub memory_all-history :
    (m : MemoryStore) (rs : List Record)
    → memory_all m rs ≡ fold_left (write run_id merge) m (history rs)
unfolding history memory_upsert
memory_all-history m [] = refl
memory_all-history m (r ∷ rs) = elim (Result-cases (validate_record (normalize_record r))) [
  | inl (u, valid) ↦
      rw (valid, clone_record-normalize_record r)
        (memory_all-history (insert (normalize_record r).run.id (normalize_record r) m) rs)
  | inr (e, refused) ↦ rw refused (memory_all-history m rs)
]

module _ (codec : Codec Record) where
  pub read_record-encode :
      (r : Record) (line : Text)
      → validate_record (normalize_record r) ≡ ok tt
      → codec.encode (normalize_record r) ≡ ok line
      → read_record codec line ≡ ok (normalize_record r)
  unfolding read_record
  read_record-encode r line valid e =
      rw (codec.decode-encode (normalize_record r) line e, normalize_record_idempotent r, valid)

  -- one upsert of a valid record that fits adds its line to the file
  pub file_upsert_valid :
      (file : File) (r : Record) (line : Text)
      → validate_record (normalize_record r) ≡ ok tt
      → codec.encode (normalize_record r) ≡ ok line
      → (file_upsert codec background sound_disk file r).0 ≡ some (contents file ++ line ∷ [])
  unfolding file_upsert accept append_line
  file_upsert_valid file r line valid e = rw (valid, clone_record-normalize_record r, e)

  file_upsert_refused :
      (file : File) (r : Record) (e : Error)
      → validate_record (normalize_record r) ≡ err e
      → file_upsert codec background sound_disk file r ≡ (file, err e)
  unfolding file_upsert accept
  file_upsert_refused file r e refused = rw refused

  -- the file holds the history
  pub file_all-Reads :
      (file : File) (held rs : List Record)
      → Reads (read_record codec) (contents file) held
      → All (Fits codec) (history rs)
      → Reads (read_record codec) (contents (file_all codec file rs)) (held ++ history rs)
  unfolding history
  file_all-Reads file held [] h fits = rw append-nil h
  file_all-Reads file held (r ∷ rs) h fits =
      elim (Result-cases (validate_record (normalize_record r))) [
        | inl (u, valid) ↦
            let n : Record = normalize_record r in
            let f : Fits codec n × All (Fits codec) (history rs) = rw valid at fits in
            let line : Text = f.0.0 in
            rw (valid, file_upsert_valid file r line valid f.0.1)
              (rw (append_assoc held (n ∷ []) (history rs)) at (
                file_all-Reads (some (contents file ++ line ∷ [])) (held ++ n ∷ []) rs
                  (Reads-append (read_record codec) (contents file) held line n h f.0.2
                    (read_record-encode r line valid f.0.1))
                  f.1))
        | inr (e, refused) ↦
            rw (refused, file_upsert_refused file r e refused)
              (file_all-Reads file held rs h (rw refused at fits))
      ]

  -- behind os.Open, Get is the fold of the history
  pub scan_file-Reads :
      (id : Text) (file : File) (held : List Record)
      → Reads (read_record codec) (contents file) held
      → scan_file codec background id file
        ≡ of_option not_found (fold_left (keep_latest run_id merge id) none held)
  unfolding scan_file keep_latest
  scan_file-Reads id none [] h = refl
  scan_file-Reads id none (r ∷ rs) h = absurd h
  scan_file-Reads id (some lines) held h =
      rw (scan-fold_left (read_record codec) (keep id) 1 none lines held h) refl

pub written-IsNormal :
    (m : MemoryStore) (rs : List Record)
    → Each (λ _ r. IsNormal r) m
    → All IsNormal rs
    → Each (λ _ r. IsNormal r) (fold_left (write run_id merge) m rs)
written-IsNormal m [] h n = h
written-IsNormal m (r ∷ rs) h (n, ns) =
    written-IsNormal (insert r.run.id r m) rs (insert-Each _ r.run.id r m n h) ns

-- what a Get of the memory store finds
pub found_clone :
    (o : Option Record)
    → ((r : Record) → o ≡ some r → IsNormal r)
    → (of_option not_found o >>= λ r. ok (clone_record r)) ≡ of_option not_found o
found_clone none h = refl
found_clone (some r) h = ap ok (clone_of_IsNormal r (h r refl))
