-- ===== src/RetrievalStore/Ranking.antt =====
-- What the score of a document says, and how hits are ranked.
use semantic_intelligence_la.Contracts.Retrieval.{Document, Hit}
use semantic_intelligence_la.RetrievalStore.Scoring.{
  has_term, matched_terms, raw_score, score_document, hit_of, ranks_before, is_scored,
}
use semantic_intelligence_la.Base.{
  ◌==◌, if◌then◌else◌, Bool-cases, length, filter_by, Text, CharTables, IsStrictWeak, ℕ, ◌+◌, ◌*◌,
  ◌≤◌, ◌<◌, ◌≡◌, ◌↔◌, inl, inr, Bool, true, false, List, [], ◌∷◌, arith,
}

ranks_before_asym : (x y : Hit) → ranks_before x y ≡ true → ranks_before y x ≡ false
unfolding ranks_before
ranks_before_asym x y h = ground arith

ranks_before_neg_trans :
    (x y z : Hit) → ranks_before y x ≡ false → ranks_before z y ≡ false → ranks_before z x ≡ false
unfolding ranks_before
ranks_before_neg_trans x y z h k = ground arith

pub ranks_before-IsStrictWeak : IsStrictWeak ranks_before
ranks_before-IsStrictWeak = record { asym = ranks_before_asym; neg_trans = ranks_before_neg_trans }

length-filter_by {ℓ} :
    {A : Type ℓ} (p : A → Bool) (xs : List A) → length (filter_by p xs) ≤ length xs
unfolding filter_by
length-filter_by p [] = omega arith
length-filter_by p (x ∷ xs) = ground (arith, length-filter_by p xs)

module _ ⦃u : CharTables⦄ (raw_query : Text) (query_terms : List Text) where
  -- how many of the query's terms the document has
  abbrev pub matched_count : Document → ℕ
  matched_count document = length (matched_terms query_terms document)

  matched_count-le : (document : Document) → matched_count document ≤ length query_terms
  unfolding matched_terms
  matched_count-le document = length-filter_by (has_term document) query_terms

  raw_score_bounds :
      (document : Document)
      → (4 * matched_count document ≤ raw_score raw_query query_terms document)
        × (raw_score raw_query query_terms document ≤ 4 * matched_count document + 5)
        × (matched_count document < length query_terms
            → raw_score raw_query query_terms document ≤ 4 * matched_count document + 3)
  unfolding raw_score
  raw_score_bounds document = (ground arith, ground arith, λ partial. ground arith)

  score-hit_of :
      (document : Document)
      → (hit_of raw_query query_terms document).score
        ≡ (if matched_count document == 0 then 0 else raw_score raw_query query_terms document)
  unfolding hit_of score_document
  score-hit_of document = elim (Bool-cases (matched_count document == 0)) [
    | inl none_matched ↦ rw none_matched
    | inr some_matched ↦ rw some_matched
  ]

  -- A document is a hit exactly when it has a term of the query. Its score, in halves, is then four
  -- for each such term, and at most five more.
  pub hit_of_bounds :
      (document : Document)
      → ((is_scored (hit_of raw_query query_terms document) ≡ true) ↔ (0 < matched_count document))
        × (4 * matched_count document ≤ (hit_of raw_query query_terms document).score)
        × ((hit_of raw_query query_terms document).score ≤ 4 * matched_count document + 5)
  hit_of_bounds document =
      let e = score-hit_of document in
      let (low, high, _) = raw_score_bounds document in
      (ground (arith, e, low), ground (arith, e, low), ground (arith, e, high))

  -- Of two documents the one that has more terms of the query ranks before the other, whatever
  -- either says of the query as a phrase and however old they are.
  pub more_terms-ranks_before :
      (document other : Document)
      → matched_count other < matched_count document
      → ranks_before (hit_of raw_query query_terms document) (hit_of raw_query query_terms other)
        ≡ true
  unfolding ranks_before
  more_terms-ranks_before document other more =
      let fits = matched_count-le document in
      let (low, _, _) = raw_score_bounds document in
      let (_, _, partial) = raw_score_bounds other in
      let most : raw_score raw_query query_terms other ≤ 4 * matched_count other + 3 =
        partial (omega arith) in
      ground (arith, score-hit_of document, score-hit_of other, low, most)
