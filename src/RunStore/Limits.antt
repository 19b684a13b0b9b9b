-- ===== src/RunStore/Limits.antt =====
-- Where the two stores part: versions that come late, and records that the scan cannot read.
use mathlib.Core.Path.{subst}
use mathlib.Core.List.{append-nil, append_assoc}
use semantic_intelligence_la.Base.Dict.{lookup, insert, lookup-insert}
use semantic_intelligence_la.Storage.JsonLines.{
  background, Codec, sound_disk, File, contents, append_line, err_too_long, too_long, of_option,
  fold_left, Reads, scan-too_long,
}
use semantic_intelligence_la.Storage.Latest.{keep_latest, write}
use semantic_intelligence_la.RunStore.Records.{
  Record, clone_record, normalize_record, validate_run, validate_record, pick_latest,
}
use semantic_intelligence_la.RunStore.Backends.{
  accept, memory_get, accept_id, file_upsert, file_get, scan_file, read_record, merge, keep,
}
use semantic_intelligence_la.RunStore.Normal.{normalize_record_idempotent}
use semantic_intelligence_la.Base.{
  is_empty, All, Text, trim_space, is_blank, eq_text_iff, not_found, ok, err, Result-cases,
  trim_space_idempotent, ◌≡◌, refl, sym, ap, ◌∙◌, inl, inr, true, false, none, some, List, [], ◌∷◌,
  ◌++◌, arith,
}
use semantic_intelligence_la.RunStore.Replay.{
  run_id, memory_all, file_all, history, Fits, Supersedes, IsNormal, clone_of_IsNormal,
  memory_all-history, file_upsert_valid, file_all-Reads, scan_file-Reads,
}

history_pair :
    (e r : Record)
    → validate_record (normalize_record e) ≡ ok tt
    → validate_record (normalize_record r) ≡ ok tt
    → history (e ∷ r ∷ []) ≡ normalize_record e ∷ normalize_record r ∷ []
unfolding history
history_pair e r valid_e valid_r = rw (valid_e, valid_r)

trim_id : (e : Record) → trim_space e.run.id ≡ (normalize_record e).run.id
unfolding normalize_record
trim_id e = refl

validate_record-named : (r : Record) → validate_record r ≡ ok tt → is_blank r.run.id ≡ false
unfolding validate_record validate_run
validate_record-named r valid = ground arith

-- a record that passes the check has an id
named_of_valid :
    (e : Record)
    → validate_record (normalize_record e) ≡ ok tt
    → is_empty (normalize_record e).run.id ≡ false
unfolding normalize_record is_blank
named_of_valid e valid =
    rw trim_space_idempotent at (validate_record-named (normalize_record e) valid)

-- the pair in the map and in the scan
pair_in_map :
    (e r : Record)
    → r.run.id ≡ e.run.id
    → lookup e.run.id (fold_left (write run_id merge) [] (e ∷ r ∷ [])) ≡ some r
pair_in_map e r same =
    ground (
      arith,
      lookup-insert r.run.id e.run.id r (insert e.run.id e []),
      eq_text_iff r.run.id e.run.id,
    )

pick_latest_stale : (e r : Record) → ¬ Supersedes (some e) r → pick_latest e r ≡ clone_record e
unfolding pick_latest
pick_latest_stale e r stale = ground arith

pair_in_scan :
    (e r : Record)
    → r.run.id ≡ e.run.id
    → IsNormal e
    → ¬ Supersedes (some e) r
    → fold_left (keep_latest run_id merge e.run.id) none (e ∷ r ∷ []) ≡ some e
unfolding keep_latest merge
pair_in_scan e r same normal stale = ground (
  arith,
  eq_text_iff r.run.id e.run.id,
  eq_text_iff e.run.id e.run.id,
  clone_of_IsNormal e normal,
  pick_latest_stale e r,
)

-- Two accepted versions of one run, the second of which does not supersede the first: the memory
-- store then returns the second, which was written last, and the file store the first.
pub stale_upsert :
    (codec : Codec Record) (e r : Record)
    → validate_record (normalize_record e) ≡ ok tt
    → validate_record (normalize_record r) ≡ ok tt
    → Fits codec (normalize_record e)
    → Fits codec (normalize_record r)
    → (normalize_record r).run.id ≡ (normalize_record e).run.id
    → ¬ Supersedes (some (normalize_record e)) (normalize_record r)
    → (memory_get background (memory_all [] (e ∷ r ∷ [])) e.run.id ≡ ok (normalize_record r))
      × (file_get codec background sound_disk (file_all codec none (e ∷ r ∷ [])) e.run.id
          ≡ ok (normalize_record e))
unfolding memory_get file_get accept_id
stale_upsert codec e r valid_e valid_r fits_e fits_r same stale =
    let n : Record = normalize_record e in
    let m : Record = normalize_record r in
    let normal_e : IsNormal n = normalize_record_idempotent e in
    let normal_r : IsNormal m = normalize_record_idempotent r in
    let pair = history_pair e r valid_e valid_r in
    let both_fit : All (Fits codec) (n ∷ m ∷ []) = (fits_e, (fits_r, tt)) in
    (
      rw
          (
            trim_id e,
            named_of_valid e valid_e,
            memory_all-history [] (e ∷ r ∷ []),
            history_pair e r valid_e valid_r,
          )
          (rw (pair_in_map n m same) (ap ok (clone_of_IsNormal m normal_r))),
      rw (trim_id e, named_of_valid e valid_e)
          (scan_file-Reads codec n.run.id (file_all codec none (e ∷ r ∷ [])) (n ∷ m ∷ []) (
              subst (Reads (read_record codec) (contents (file_all codec none (e ∷ r ∷ [])))) pair (
                file_all-Reads codec none [] (e ∷ r ∷ []) tt
                  (subst (All (Fits codec)) (sym pair) both_fit)))
            ∙ ap (of_option not_found) (pair_in_scan n m same normal_e stale)),
    )

file_all-grows :
    (codec : Codec Record) (lines : List Text) (rs : List Record)
    → (more : List Text) × (file_all codec (some lines) rs ≡ some (lines ++ more))
unfolding file_upsert append_line
file_all-grows codec lines [] = ([], ap some (sym (append-nil lines)))
file_all-grows codec lines (r ∷ rs) = elim (Result-cases (accept background r)) [
  | inl (n, accepted) ↦ elim (Result-cases (codec.encode (clone_record n))) [
    | inl (line, encoded) ↦
        let (more, grown) = file_all-grows codec (lines ++ line ∷ []) rs in
        (
          line ∷ more,
          rw (accepted, encoded) (grown ∙ ap some (append_assoc lines (line ∷ []) more)),
        )
    | inr (e, failed) ↦
        let (more, grown) = file_all-grows codec lines rs in (more, rw (accepted, failed) grown)
  ]
  | inr (e, refused) ↦ let (more, grown) = file_all-grows codec lines rs in (more, rw refused grown)
]

-- Upsert accepts a record whose JSON line does not fit the scanner's buffer; from then on, after
-- any further upserts, Get of every run id that is not blank fails, also of the runs stored before.
pub oversized_blocks_get :
    (codec : Codec Record) (rs rest : List Record) (r : Record) (line id : Text)
    → All (Fits codec) (history rs)
    → validate_record (normalize_record r) ≡ ok tt
    → codec.encode (normalize_record r) ≡ ok line
    → too_long line ≡ true
    → is_blank id ≡ false
    → file_get codec background sound_disk
        (file_all codec (file_upsert codec background sound_disk (file_all codec none rs) r).0 rest)
        id
      ≡ err err_too_long
unfolding file_get accept_id scan_file is_blank
oversized_blocks_get codec rs rest r line id fits valid encoded long named =
    let file : File = file_all codec none rs in
    let (more, grown) = file_all-grows codec (contents file ++ line ∷ []) rest in
    rw
      (
        named,
        file_upsert_valid codec file r line valid encoded,
        grown,
        append_assoc (contents file) (line ∷ []) more,
        scan-too_long (read_record codec) (keep (trim_space id)) 1 none (contents file) more
            (history rs) line (file_all-Reads codec none [] rs tt fits) long,
      )
      refl
