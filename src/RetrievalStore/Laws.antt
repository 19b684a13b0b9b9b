-- ===== src/RetrievalStore/Laws.antt =====
-- What a search of the documents returns.
use semantic_intelligence_la.Base.Dict.{lookup, lookup-insert, values, Each, insert-Each}
use semantic_intelligence_la.Contracts.Retrieval.{Document, Hit, validate}
use semantic_intelligence_la.Contracts.Retrieval.Terms.{normalize_terms}
use semantic_intelligence_la.Storage.JsonLines.{Context, background}
use semantic_intelligence_la.Storage.Search.{
  truncate, truncate-nil, search_list, IsAnswer, rest_of, search_list-IsAnswer, search_list-All,
}
use semantic_intelligence_la.Query.Filters.{RetrievalQuery}
use semantic_intelligence_la.RetrievalStore.Scoring.{
  matches, matched_terms, hit_of, ranks_before, is_scored, score_document, score_results,
}
use semantic_intelligence_la.RetrievalStore.Ranking.{ranks_before-IsStrictWeak}
use semantic_intelligence_la.RetrievalStore.{
  MemoryStore, normalize_document, normal_document, accept, memory_append, memory_search,
}
use semantic_intelligence_la.Base.{
  if◌then◌else◌, is_empty, All, filter_by, All-filter_by, Text, CharTables, eq_text, trim_space,
  Result, ok, err, ◌>>=◌, check_context, Result-cases, Meets, Meets-bind, Meets-eq-ok, sort_by,
  trim_space_idempotent, ◌≡◌, refl, sym, ap, ◌∙◌, inl, inr, true, some, List, [], ◌∷◌, map,
}

module _ ⦃u : CharTables⦄ where
  -- the terms of the query
  abbrev pub terms_of : RetrievalQuery → List Text
  terms_of filter = normalize_terms (filter.query_text ∷ [])

  -- the hit that a query makes of a document
  abbrev pub hit_for : RetrievalQuery → Document → Hit
  hit_for filter = hit_of (trim_space filter.query_text) (terms_of filter)

  -- a hit of a document that matches the query and has a term of it, with the terms that it has
  -- in order
  abbrev pub IsHit : RetrievalQuery → Hit → Type 0
  IsHit filter hit = (matches filter hit.document ≡ true) × (hit ≡ hit_for filter hit.document)

  no_terms :
      (raw : Text) (documents : List Document)
      → filter_by is_scored (map (hit_of raw []) documents) ≡ []
  unfolding filter_by hit_of score_document matched_terms
  no_terms raw [] = refl
  no_terms raw (d ∷ documents) = no_terms raw documents

  pub score_results-search_list :
      (filter : RetrievalQuery) (documents : List Document)
      → score_results filter documents
        ≡ search_list is_scored ranks_before filter.limit (map (hit_for filter) documents)
  unfolding score_results search_list
  score_results-search_list filter documents = go (terms_of filter)
    where
      go :
          (terms : List Text)
          → (if is_empty terms
              then []
              else truncate filter.limit (
                  sort_by ranks_before (
                    filter_by is_scored
                      (map (hit_of (trim_space filter.query_text) terms) documents))))
            ≡ truncate filter.limit (
                sort_by ranks_before (
                  filter_by is_scored
                    (map (hit_of (trim_space filter.query_text) terms) documents)))
      go [] =
          rw (no_terms (trim_space filter.query_text) documents) (sym (truncate-nil filter.limit))
      go (t ∷ terms) = refl

  pub score_results-nil : (filter : RetrievalQuery) → score_results filter [] ≡ []
  unfolding search_list
  score_results-nil filter = score_results-search_list filter [] ∙ truncate-nil filter.limit

  hits-IsHit :
      (filter : RetrievalQuery) (documents : List Document)
      → All (IsHit filter) (map (hit_for filter) (filter_by (matches filter) documents))
  unfolding hit_of
  hits-IsHit filter documents =
      go (filter_by (matches filter) documents) (All-filter_by (matches filter) documents)
    where
      go :
          (ds : List Document)
          → All (λ d. matches filter d ≡ true) ds
          → All (IsHit filter) (map (hit_for filter) ds)
      go [] h = tt
      go (d ∷ ds) (m, h) = ((m, refl), go ds h)

  -- what a search ranks: a hit for each stored document that matches the query
  abbrev pub candidates : MemoryStore → RetrievalQuery → List Hit
  candidates store filter = map (hit_for filter) (filter_by (matches filter) (values store))

  -- A search of the memory store, on a context that is not ended, answers: every hit is that of a
  -- stored document that matches the query, has a term of the query, carries the score and terms
  -- that the query gives the document; the hits are sorted by score, then by the time of the
  -- event, then by that of its ingestion; they are at most as many as a positive limit says; and
  -- together with what the limit left out, none of which ranks before a hit returned, they are
  -- all the candidates with a score.
  pub memory_search-IsAnswer_of_retrieval :
      (store : MemoryStore) (filter : RetrievalQuery)
      → (found : List Hit) × (memory_search background store filter ≡ ok found)
        × All (IsHit filter) found
        × IsAnswer is_scored ranks_before filter.limit (candidates store filter) found (
            rest_of is_scored ranks_before ranks_before-IsStrictWeak filter.limit
              (candidates store filter))
  unfolding memory_search
  memory_search-IsAnswer_of_retrieval store filter = (
    search_list is_scored ranks_before filter.limit (candidates store filter),
    ap ok (score_results-search_list filter (filter_by (matches filter) (values store))),
    search_list-All is_scored ranks_before ranks_before-IsStrictWeak filter.limit
        (candidates store filter) (IsHit filter) (hits-IsHit filter (values store)),
    search_list-IsAnswer is_scored ranks_before ranks_before-IsStrictWeak filter.limit
        (candidates store filter),
  )

  -- the document is normal, passes its check and is kept under its id
  abbrev pub IsStored : Text → Document → Type 0
  IsStored id d = (validate d ≡ ok tt) × (d.document_id ≡ id) × (trim_space id ≡ id)

  accept-IsStored :
      (ctx : Context) (d : Document) → Meets (λ a. IsStored a.document_id a) (accept ctx d)
  unfolding accept normal_document
  accept-IsStored ctx d =
      Meets-bind _ (check_context (ctx 0)) (λ _. normal_document d)
        (λ _. go (validate (normalize_document d)) refl)
    where
      go :
          (v : Result (Unit {0}))
          → validate (normalize_document d) ≡ v
          → Meets (λ a. IsStored a.document_id a) (v >>= λ _. ok (normalize_document d))
      go (ok tt) e = (e, refl, unfold normalize_document in trim_space_idempotent d.document_id)
      go (err x) e = tt

  accept-eq : (ctx : Context) (d a : Document) → accept ctx d ≡ ok a → a ≡ normalize_document d
  unfolding accept normal_document
  accept-eq ctx d a e =
      Meets-eq-ok (λ a. a ≡ normalize_document d) (accept ctx d) a
        (Meets-bind _ (check_context (ctx 0)) (λ _. normal_document d)
          (λ _.
            Meets-bind _ (validate (normalize_document d)) (λ _. ok (normalize_document d))
              (λ _. refl)))
        e

  -- what an append makes of the store, by the answer of its checks
  abbrev pub Appended :
      MemoryStore → Document → Result Document → MemoryStore × Result (Unit {0}) → Type 0
  Appended store d (err e) after = after ≡ (store, err e)
  Appended store d (ok a) after =
      (a ≡ normalize_document d)
      × (after.1 ≡ ok tt)
      × ((k : Text)
          → lookup k after.0
            ≡ (if eq_text (trim_space d.document_id) k then some a else lookup k store))

  memory_append-Appended :
      (ctx : Context) (store : MemoryStore) (d : Document)
      → Appended store d (accept ctx d) (memory_append ctx store d)
  unfolding memory_append
  memory_append-Appended ctx store d = elim (Result-cases (accept ctx d)) [
    | inr (x, e) ↦ rw e refl
    | inl (a, e) ↦
        let same : a ≡ normalize_document d = accept-eq ctx d a e in
        rw e (
          same,
          refl,
          (λ k.
              lookup-insert a.document_id k a store
              ∙ ap (λ (z : Document). if eq_text z.document_id k then some a else lookup k store)
                  same
              ∙ unfold normalize_document in refl),
        )
  ]

  -- An append on any context, refused or not, keeps the memory store well formed: every document
  -- held is valid and is kept under its own id, which is trimmed. If the document is refused the
  -- store is as it was; if it is accepted, its normal form is found under its trimmed id, and what
  -- is found under every other id is as it was.
  pub memory_append-IsStored :
      (ctx : Context) (store : MemoryStore) (d : Document)
      → Each IsStored store
      → Each IsStored (memory_append ctx store d).0
        × Appended store d (accept ctx d) (memory_append ctx store d)
  unfolding memory_append
  memory_append-IsStored ctx store d h = (
    elim (Result-cases (accept ctx d)) [
      | inl (a, e) ↦ rw e (
          insert-Each IsStored a.document_id a store
            (Meets-eq-ok (λ a. IsStored a.document_id a) (accept ctx d) a (accept-IsStored ctx d) e)
            h)
      | inr (x, e) ↦ rw e h
    ],
    memory_append-Appended ctx store d,
  )
