-- ===== src/Pipeline/Index/Found.antt =====
-- What is indexed is found: from a session event to the hits of a query.
use semantic_intelligence_la.Base.Dict.{Dict, insert, values}
use semantic_intelligence_la.Base.Times.{pos}
use semantic_intelligence_la.Base.Sort.{insert_by}
use semantic_intelligence_la.Contracts.Sessions
use semantic_intelligence_la.Contracts.Retrieval.{Document, Hit}
use semantic_intelligence_la.Contracts.Retrieval.TermSets.{has}
use semantic_intelligence_la.Storage.JsonLines.{background, on_ok}
use semantic_intelligence_la.Storage.Filters.{field_matches, in_window}
use semantic_intelligence_la.Storage.Search.{truncate, search_list}
use semantic_intelligence_la.Query.Filters.{RetrievalQuery}
use semantic_intelligence_la.RetrievalStore.{
  MemoryStore, normalize_document, accept, memory_append, memory_search,
}
use semantic_intelligence_la.RetrievalStore.Scoring.{
  matches, has_term, matched_terms, is_scored, ranks_before, hit_of, score_results,
}
use semantic_intelligence_la.RetrievalStore.Ranking.{matched_count, hit_of_bounds}
use semantic_intelligence_la.RetrievalStore.Laws.{terms_of, hit_for, score_results-search_list}
use semantic_intelligence_la.Pipeline.Index.Terms.{
  IsLatin, network, has-network_again, any_of_has, network-lower_alone,
}
use semantic_intelligence_la.Pipeline.Index.Documents.{build_session_document}
use semantic_intelligence_la.Pipeline.Index.Laws.{build_session_document-total}
use semantic_intelligence_la.Base.{
  Bool-cases, length, any, filter_by, Text, CharTables, eq_text, trim_space, is_blank, to_lower,
  equal_fold, eq_text_refl, ok, sort_by, trim_space_idempotent, ◌<◌, ◌≡◌, refl, ap, ◌∙◌, inl, inr,
  Bool, true, ◌&&◌, ◌||◌, none, List, [], ◌∷◌, map, arith,
}

module _ {ℓ} {A : Type ℓ} (p : A → Bool) where
  any-insert_by :
      (less : A → A → Bool) (x : A) (l : List A) → any p (insert_by less x l) ≡ (p x || any p l)
  unfolding insert_by
  any-insert_by less x [] = refl
  any-insert_by less x (y ∷ ys) = ground (arith, any-insert_by less x ys)

  any-sort_by : (less : A → A → Bool) (l : List A) → any p (sort_by less l) ≡ any p l
  unfolding sort_by
  any-sort_by less [] = refl
  any-sort_by less (x ∷ xs) =
      ground (arith, any-insert_by less x (sort_by less xs), any-sort_by less xs)

  any-filter_by : (q : A → Bool) (l : List A) → any p (filter_by q l) ≡ any (λ x. q x && p x) l
  unfolding filter_by
  any-filter_by q [] = refl
  any-filter_by q (x ∷ xs) = ground (arith, any-filter_by q xs)

  any-map {κ} : {B : Type κ} (f : B → A) (l : List B) → any p (map f l) ≡ any (λ b. p (f b)) l
  any-map f [] = refl
  any-map f (x ∷ xs) = ground (arith, any-map f xs)

length-filter_by_of_any {ℓ} :
    {A : Type ℓ} (p : A → Bool) (xs : List A) → any p xs ≡ true → 0 < length (filter_by p xs)
unfolding filter_by
length-filter_by_of_any p [] h = cc
length-filter_by_of_any p (x ∷ xs) h = elim (Bool-cases (p x)) [
  | inl here ↦ rw here (omega arith)
  | inr not_here ↦ rw not_here (length-filter_by_of_any p xs (rw not_here at h))
]

any-insert :
    {A : Type 0} (p : A → Bool) (k : Text) (v : A) (m : Dict A)
    → p v ≡ true
    → any p (values (insert k v m)) ≡ true
unfolding insert values
any-insert p k v [] h = ground arith
any-insert p k v ((k', v') ∷ m) h = ground (arith, any-insert p k v m h)

-- the query for every document of the tenant that has the term
abbrev pub network_query : Text → RetrievalQuery
network_query tenant_id = record {
  tenant_id = tenant_id;
  query_text = network;
  subscriber_id = [];
  session_id = [];
  request_id = [];
  status = [];
  outcome = [];
  nas_ip_address = [];
  client_ip_address = [];
  from = none;
  to = none;
  limit = pos 0;
}

-- the hit is that of the document of the event
abbrev pub is_hit_of : Sessions.Event → Hit → Bool
is_hit_of e h =
    eq_text h.document.document_id (trim_space e.event_id)
    && eq_text h.document.content (trim_space e.semantic_text)

module _ ⦃u : CharTables⦄ where
  equal_fold_refl : (t : Text) → equal_fold t t ≡ true
  unfolding equal_fold
  equal_fold_refl t = eq_text_refl (map u.fold t)

  matches-network_query :
      (tenant : Text) (d : Document)
      → trim_space d.tenant_id ≡ trim_space tenant
      → matches (network_query tenant) d ≡ true
  unfolding matches field_matches in_window is_blank trim_space
  matches-network_query tenant d same =
      rw (same, equal_fold_refl (trim_space tenant)) (ground arith)

  -- a search finds a document that matches and is scored
  any-score_results :
      (filter : RetrievalQuery) (q : Hit → Bool) (documents : List Document)
      → filter.limit ≡ pos 0
      → any (λ h. is_scored h && q h) (map (hit_for filter) documents) ≡ true
      → any q (score_results filter documents) ≡ true
  unfolding search_list truncate
  any-score_results filter q documents unlimited h =
      rw (score_results-search_list filter documents, unlimited)
        (any-sort_by q ranks_before (filter_by is_scored (map (hit_for filter) documents))
          ∙ any-filter_by q is_scored (map (hit_for filter) documents)
          ∙ h)

  module _ (latin : IsLatin u) where
    has_term-network : (d : Document) → has network d.terms ≡ true → has_term d network ≡ true
    unfolding has_term
    has_term-network d h =
        let bare : trim_space network ≡ network = unfold trim_space in refl in
        any_of_has latin (λ t. eq_text (to_lower (trim_space t)) network) network d.terms h
          (rw (bare, network-lower_alone latin) (eq_text_refl network))

    scored-network :
        (filter : RetrievalQuery) (d : Document)
        → filter.query_text ≡ network
        → has network d.terms ≡ true
        → is_scored (hit_for filter d) ≡ true
    unfolding matched_terms
    scored-network filter d asked h =
        let terms = terms_of filter in
        let own : has network (filter.query_text ∷ []) ≡ true =
          rw (asked, eq_text_refl network) refl in
        let some_matched : 0 < matched_count (trim_space filter.query_text) terms d =
          length-filter_by_of_any (has_term d) terms (
            any_of_has latin (has_term d) network terms
              (has-network_again latin (filter.query_text ∷ []) own) (has_term-network d h)) in
        (hit_of_bounds (trim_space filter.query_text) terms d).0.1 some_matched

    finds :
        (e : Sessions.Event) (store : MemoryStore) (d : Document)
        → trim_space d.tenant_id ≡ trim_space e.tenant_id
        → has network d.terms ≡ true
        → d.document_id ≡ trim_space e.event_id
        → d.content ≡ trim_space e.semantic_text
        → any (is_hit_of e) (
            score_results (network_query e.tenant_id) (
              filter_by
                (matches (network_query e.tenant_id))
                (values (insert d.document_id d store))))
          ≡ true
    unfolding hit_of
    finds e store d tenant term id content =
        let filter = network_query e.tenant_id in
        let q = is_hit_of e in
        let found : Document → Bool = λ x. is_scored (hit_for filter x) && q (hit_for filter x) in
        let all = values (insert d.document_id d store) in
        let ours : (matches filter d && found d) ≡ true =
          rw
            (
              matches-network_query e.tenant_id d tenant,
              scored-network filter d refl term,
              id,
              content,
              eq_text_refl (trim_space e.event_id),
              eq_text_refl (trim_space e.semantic_text),
            )
            refl in
        any-score_results filter q (filter_by (matches filter) all) refl (
          any-map (λ h. is_scored h && q h) (hit_for filter) (filter_by (matches filter) all)
          ∙ any-filter_by found (matches filter) all
          ∙ any-insert (λ x. matches filter x && found x) d.document_id d store ours)

    appended :
        (store : MemoryStore) (d : Document)
        → accept background d ≡ ok (normalize_document d)
        → memory_append background store d
          ≡ (insert (normalize_document d).document_id (normalize_document d) store, ok tt)
    unfolding memory_append
    appended store d taken =
        ap (λ a. on_ok store a (λ n. (insert n.document_id n store, ok tt))) taken

    -- A valid session event is found once it is indexed: it becomes a document, which the memory
    -- store takes whatever it holds, and a search for the word `network` in the event's tenant,
    -- without a limit, then returns a hit of the event's id with the event's text. The tables of
    -- `unicode` are those of Unicode on the Latin small letters and the space.
    pub build_session_document-found :
        (e : Sessions.Event) (store : MemoryStore)
        → Sessions.validate e ≡ ok tt
        → (d : Document) × (build_session_document e ≡ ok d)
          × ((memory_append background store d).1 ≡ ok tt)
          × (found : List Hit) × (memory_search background
                (memory_append background store d).0
                (network_query e.tenant_id)
              ≡ ok found)
          × (any (is_hit_of e) found ≡ true)
    unfolding memory_search
    build_session_document-found e store h =
        let (d, built, _, id, tenant, content, term, taken) =
          build_session_document-total latin e h in
        let n : Document = normalize_document d in
        let filter = network_query e.tenant_id in
        let kept = values (insert n.document_id n store) in
        let stored : memory_append background store d ≡ (insert n.document_id n store, ok tt) =
          appended store d taken in
        let trimmed : trim_space n.tenant_id ≡ trim_space e.tenant_id =
          unfold normalize_document in (trim_space_idempotent d.tenant_id ∙ ap trim_space tenant) in
        let has_term : has network n.terms ≡ true =
          unfold normalize_document in has-network_again latin d.terms term in
        (
          d,
          built,
          ap (λ a. a.1) stored,
          score_results filter (filter_by (matches filter) kept),
          ap (λ a. memory_search background a.0 filter) stored,
          finds e store n trimmed has_term (unfold normalize_document in ap trim_space id)
              (unfold normalize_document in ap trim_space content),
        )
