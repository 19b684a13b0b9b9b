-- ===== src/RetrievalStore/Versions.antt =====
-- Which version of a document a scan of the file keeps.
use semantic_intelligence_la.Base.Times.{after}
use semantic_intelligence_la.Base.Dict.{Dict, lookup, values}
use semantic_intelligence_la.Contracts.Retrieval.{Document}
use semantic_intelligence_la.Storage.JsonLines.{
  background, Codec, sound_disk, File, contents, too_long, fold_left, Reads, Reads-append,
  scan-fold_left,
}
use semantic_intelligence_la.Query.Filters.{RetrievalQuery}
use semantic_intelligence_la.RetrievalStore.Scoring.{matches, score_results}
use semantic_intelligence_la.RetrievalStore.Laws.{score_results-nil}
use semantic_intelligence_la.RetrievalStore.{read_document, collect, scan_file, file_search}
use semantic_intelligence_la.Base.{
  ◌==◌, Text, CharTables, ok, ◌≡◌, refl, sym, ap, ◌∙◌, Bool, true, false, ◌&&◌, ◌||◌, none, some,
  List, [], ◌∷◌, ◌++◌,
}

-- ingested later, or of one ingestion time and of a later event
abbrev pub newer_version : Document → Document → Bool
newer_version d e =
    after d.ingested_at e.ingested_at
    || (d.ingested_at == e.ingested_at && after d.occurred_at e.occurred_at)

module _ ⦃u : CharTables⦄ (filter : RetrievalQuery) where
  -- a version of the document is kept, and it is not older
  abbrev pub HasVersion : Dict Document → Document → Type 0
  HasVersion documents d =
      (kept : Document) × (lookup d.document_id documents ≡ some kept)
      × (newer_version d kept ≡ false)

  abbrev Covered : Dict Document → Document → Type 0
  Covered documents d = matches filter d ≡ true → HasVersion documents d

  -- what is kept matches the query, and is kept under its id
  abbrev pub IsKept : Text → Document → Type 0
  IsKept id d = (matches filter d ≡ true) × (d.document_id ≡ id)

  -- what a scan of the versions keeps
  abbrev pub kept_of : List Document → Dict Document
  kept_of items = fold_left (collect filter) [] items

  kept_of-append :
      (items : List Document) (d : Document)
      → matches filter d ≡ false
      → kept_of (items ++ d ∷ []) ≡ kept_of items
  kept_of-append items d miss = go [] items
    where
      go :
          (m : Dict Document) (items : List Document)
          → fold_left (collect filter) m (items ++ d ∷ []) ≡ fold_left (collect filter) m items
      go m [] = unfold collect in rw miss
      go m (e ∷ items) = go (collect filter m e) items

  module _ (codec : Codec Document) where
    file_search-kept_of :
        (file : File) (items : List Document)
        → Reads (read_document codec) (contents file) items
        → file_search codec background sound_disk file filter
          ≡ ok (score_results filter (values (kept_of items)))
    unfolding file_search scan_file values
    file_search-kept_of none [] h = ap ok (sym (score_results-nil filter))
    file_search-kept_of none (d ∷ items) h = absurd h
    file_search-kept_of (some lines) items h =
        rw (scan-fold_left (read_document codec) (collect filter) 1 [] lines items h) refl

    -- A later version that does not match the query is not seen by a search of the file: the
    -- answer is the one that was given before the version was appended, and an earlier version of
    -- its document stays in it.
    pub file_search-append_unmatched :
        (file : File) (items : List Document) (line : Text) (d : Document)
        → Reads (read_document codec) (contents file) items
        → too_long line ≡ false
        → read_document codec line ≡ ok d
        → matches filter d ≡ false
        → file_search codec background sound_disk (some (contents file ++ line ∷ [])) filter
          ≡ file_search codec background sound_disk file filter
    file_search-append_unmatched file items line d h fits read unmatched =
        let later = Reads-append (read_document codec) (contents file) items line d h fits read in
        file_search-kept_of (some (contents file ++ line ∷ [])) (items ++ d ∷ []) later
        ∙ ap (λ m. ok (score_results filter (values m))) (kept_of-append items d unmatched)
        ∙ sym (file_search-kept_of file items h)
