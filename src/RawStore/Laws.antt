-- ===== src/RawStore/Laws.antt =====
-- What a replay returns of the records that were appended.
use mathlib.Core.Path.{subst}
use mathlib.Core.List.{append-nil, append_assoc}
use semantic_intelligence_la.Base.Dict.{lookup, insert, lookup-insert}
use semantic_intelligence_la.Contracts.Evidence.{Record, validate}
use semantic_intelligence_la.Storage.JsonLines.{background, sound_disk, contents, fold_left}
use semantic_intelligence_la.Storage.Replay.{accepted}
use semantic_intelligence_la.Storage.EventLog.{checked, appends-accepted, checked-eq-ok}
use semantic_intelligence_la.RawStore.{
  source_file_name, RecordCodec, MemoryStore, memory_append, of_source, memory_replay, Files,
  read_record, read_lines, file_append, file_replay,
}
use semantic_intelligence_la.Base.{
  Bool-cases, All, filter_by, Text, CharTables, eq_text, trim_space, is_blank, eq_text_iff, Error,
  ok, err, Result-cases, ◌≡◌, refl, sym, ap, ◌∙◌, inl, inr, Bool, false, none, ◌>>=◌, map, arith,
  List, [], ◌∷◌, ◌++◌,
}

-- the record is kept in this file
abbrev pub in_file : ⦃u : CharTables⦄ → Text → Record → Bool
in_file name r = eq_text (source_file_name r.source) name

filter_by_same {ℓ} :
    {A : Type ℓ} (p q : A → Bool) (xs : List A)
    → All (λ x. p x ≡ q x) xs
    → filter_by p xs ≡ filter_by q xs
unfolding filter_by
filter_by_same p q [] h = refl
filter_by_same p q (x ∷ xs) (e, h) = rw (e, filter_by_same p q xs h) refl

module _ (valid : Text → Bool) where
  -- the memory store after a sequence of appends, whatever each of them returns
  abbrev pub memory_all : MemoryStore → List Record → MemoryStore
  memory_all = fold_left (λ s r. (memory_append valid background s r).0)

  -- the records that an append takes
  abbrev pub taken : List Record → List Record
  taken = accepted (checked (validate valid))

  -- A record's JSON is a line: it holds no white space at its ends, and something.
  abbrev pub Prints : RecordCodec valid → Record → Type 0
  Prints codec r =
      (line : Text) × (codec.encode r ≡ ok line)
      × (trim_space line ≡ line)
      × (is_blank line ≡ false)

  -- A replay of the memory store after any appends, refused ones included, returns the accepted
  -- records of the source in the order of their appends, all of them for a blank source.
  pub memory_replay-appends :
      ⦃u : CharTables⦄
      → (records : List Record) (source : Text)
      → memory_replay background (memory_all [] records) source
        ≡ ok (filter_by (of_source source) (taken records))
  unfolding memory_replay memory_append
  memory_replay-appends records source =
      ap (λ s. ok (filter_by (of_source source) s)) (appends-accepted (validate valid) [] records)

  module _ ⦃u : CharTables⦄ (codec : RecordCodec valid) where
    -- the files after a sequence of appends on a sound disk, whatever each of them returns
    abbrev pub file_all : Files → List Record → Files
    file_all = fold_left (λ f r. (file_append valid codec background sound_disk f r).0)

    -- what the file store makes of a record: its payload is compacted
    abbrev pub compacted : Record → Record
    compacted r = record r { payload = codec.compact r.payload }

    -- every line is trimmed, holds something and reads as the record beside it, compacted
    abbrev Holds : List Text → List Record → Type 0
    Holds [] [] = Unit
    Holds (line ∷ lines) (r ∷ records) =
        (trim_space line ≡ line)
        × (is_blank line ≡ false)
        × (read_record valid codec line ≡ ok (compacted r))
        × Holds lines records
    Holds _ _ = ⊥

    Holds-append :
        (lines : List Text) (records : List Record) (line : Text) (r : Record)
        → Holds lines records
        → trim_space line ≡ line
        → is_blank line ≡ false
        → read_record valid codec line ≡ ok (compacted r)
        → Holds (lines ++ line ∷ []) (records ++ r ∷ [])
    Holds-append [] [] line r h t f e = (t, f, e, tt)
    Holds-append (l ∷ lines) (x ∷ records) line r (t', f', e', h) t f e =
        (t', f', e', Holds-append lines records line r h t f e)
    Holds-append [] (x ∷ records) line r h t f e = absurd h
    Holds-append (l ∷ lines) [] line r h t f e = absurd h

    read_lines-Holds :
        (lines : List Text) (records : List Record)
        → Holds lines records
        → read_lines valid codec lines ≡ ok (map compacted records)
    unfolding read_lines
    read_lines-Holds [] [] h = refl
    read_lines-Holds (l ∷ lines) (r ∷ records) (t, f, e, h) =
        rw (f, t, e, read_lines-Holds lines records h) refl
    read_lines-Holds [] (r ∷ records) h = absurd h
    read_lines-Holds (l ∷ lines) [] h = absurd h

    validate-compacted :
        (r : Record) → validate valid r ≡ ok tt → validate valid (compacted r) ≡ ok tt
    unfolding validate
    validate-compacted r h =
        ground
          (arith, h, codec.valid-compact r.payload, codec.valid_nonempty (codec.compact r.payload))

    read_record-encode :
        (r a : Record) (line : Text)
        → checked (validate valid) r ≡ ok a
        → codec.encode a ≡ ok line
        → read_record valid codec line ≡ ok (compacted a)
    unfolding read_record
    read_record-encode r a line h encoded =
        let (passes, same) = checked-eq-ok (validate valid) r a h in
        let own : validate valid a ≡ ok tt = rw (← same) passes in
        rw (codec.decode-encode a line encoded, validate-compacted a own) refl

    file_append_ok :
        (files : Files) (r a : Record) (line : Text)
        → checked (validate valid) r ≡ ok a
        → codec.encode a ≡ ok line
        → (file_append valid codec background sound_disk files r).0
          ≡ insert
              (source_file_name a.source)
              (contents (lookup (source_file_name a.source) files) ++ line ∷ [])
              files
    unfolding file_append
    file_append_ok files r a line h encoded = rw (h, encoded) refl

    file_append_err :
        (files : Files) (r : Record) (e : Error)
        → checked (validate valid) r ≡ err e
        → (file_append valid codec background sound_disk files r).0 ≡ files
    unfolding file_append
    file_append_err files r e h = rw h refl

    filter_by-cons :
        (name : Text) (held : List Record) (a : Record) (rest : List Record)
        → (held ++ filter_by (in_file name) (a ∷ [])) ++ filter_by (in_file name) rest
          ≡ held ++ filter_by (in_file name) (a ∷ rest)
    unfolding filter_by
    filter_by-cons name held a rest = elim (Bool-cases (in_file name a)) [
      | inl here ↦ rw here (append_assoc held (a ∷ []) _)
      | inr other ↦ rw (other, append-nil) refl
    ]

    -- the file `name` holds the records, and so do the files after a write, the new record included
    -- if it belongs there
    write-Holds :
        (name : Text) (files : Files) (held : List Record) (r : Record) (line : Text)
        → Holds (contents (lookup name files)) held
        → trim_space line ≡ line
        → is_blank line ≡ false
        → read_record valid codec line ≡ ok (compacted r)
        → Holds
            (contents (
              lookup name (
                insert
                  (source_file_name r.source)
                  (contents (lookup (source_file_name r.source) files) ++ line ∷ [])
                  files)))
            (held ++ filter_by (in_file name) (r ∷ []))
    unfolding filter_by
    write-Holds name files held r line h t f e =
        rw lookup-insert (elim (Bool-cases (in_file name r)) [
          | inr other ↦ rw (other, append-nil) h
          | inl here ↦
              let same : source_file_name r.source ≡ name = (eq_text_iff _ name).0 here in
              rw here (
                Holds-append (contents (lookup (source_file_name r.source) files)) held line r
                  (subst (λ n. Holds (contents (lookup n files)) held) (sym same) h) t f e)
        ])

    appends-Holds :
        (name : Text) (files : Files) (held records : List Record)
        → Holds (contents (lookup name files)) held
        → All (Prints codec) (taken records)
        → Holds
            (contents (lookup name (file_all files records)))
            (held ++ filter_by (in_file name) (taken records))
    unfolding accepted
    appends-Holds name files held [] h prints = unfold filter_by in rw append-nil h
    appends-Holds name files held (r ∷ records) h prints =
        elim (Result-cases (checked (validate valid) r)) [
          | inr (x, p) ↦
              rw (p, file_append_err files r x p)
                (appends-Holds name files held records h (rw p at prints))
          | inl (a, p) ↦
              let printed : Prints codec a × All (Prints codec) (taken records) = rw p at prints in
              let (line, encoded, t, f) = printed.0 in
              let next : Files =
                insert (source_file_name a.source)
                  (contents (lookup (source_file_name a.source) files) ++ line ∷ []) files in
              rw (p, file_append_ok files r a line p encoded)
                (subst (Holds (contents (lookup name (file_all next records))))
                  (filter_by-cons name held a (taken records))
                  (appends-Holds name next (held ++ filter_by (in_file name) (a ∷ [])) records
                    (write-Holds name files held a line h t f
                      (read_record-encode r a line p encoded))
                    printed.1))
        ]

    -- A replay of the files after any appends, refused ones included, on a sound disk returns the
    -- accepted records that are kept in the file of the source, in the order of their appends,
    -- whatever sources they name, each with its payload as json.Compact leaves it. Each accepted
    -- record must have a JSON line, with something in it and no white space at its ends.
    pub file_replay-appends :
        (records : List Record) (source : Text)
        → All (Prints codec) (taken records)
        → file_replay valid codec background none (file_all [] records) source
          ≡ ok (map compacted (filter_by (in_file (source_file_name source)) (taken records)))
    unfolding file_replay
    file_replay-appends records source prints =
        read_lines-Holds _ _
          (appends-Holds (source_file_name source) [] [] records (unfold lookup in tt) prints)

    -- After the same appends, refused ones included, a replay of a source from the files on a sound
    -- disk returns what a replay from the memory store returns, with each payload as json.Compact
    -- leaves it. Each accepted record must have a JSON line, with something in it and no white
    -- space at its ends, and must be kept in the file of the source exactly when its source is the
    -- one replayed, case and outer white space aside, or the one replayed is blank.
    pub file_replay-memory_replay :
        (records : List Record) (source : Text)
        → All (Prints codec) (taken records)
        → All (λ r. of_source source r ≡ in_file (source_file_name source) r) (taken records)
        → file_replay valid codec background none (file_all [] records) source ≡ (
            memory_replay background (memory_all [] records) source >>= λ found.
            ok (map compacted found))
    file_replay-memory_replay records source prints apart =
        let kept = filter_by (of_source source) (taken records) in
        let in_memory = memory_replay-appends records source in
        file_replay-appends records source prints
        ∙ ap (λ found. ok (map compacted found))
            (sym (
              filter_by_same (of_source source) (in_file (source_file_name source)) (taken records)
                apart))
        ∙ ap (λ found. found >>= λ rs. ok (map compacted rs)) (sym in_memory)
