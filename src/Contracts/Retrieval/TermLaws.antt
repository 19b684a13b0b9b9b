-- ===== src/Contracts/Retrieval/TermLaws.antt =====
-- What NormalizeTerms returns.
use semantic_intelligence_la.Contracts.Retrieval.TermSets.{
  has, Ascending, Distinct, add_term-Distinct, has-add_term, Distinct-Ascending, sort_by-Distinct,
  has-sort_by, Ascending-ext,
}
use semantic_intelligence_la.Contracts.Retrieval.Terms.{
  runs, normalize_terms, fields_func, normalize_field_term, splits_token, add_field, add_token,
  add_lowered, add_value,
}
use semantic_intelligence_la.Storage.JsonLines.{line_bytes, fold_left}
use semantic_intelligence_la.Base.{
  leb, is_empty, any, Text, codes, CharTables, ascii, eq_text, is_space, trim_space, to_lower,
  sort_by, sort_by-IsSorted, less_text, less_text-IsStrictWeak, ◌≡◌, refl, sym, ◌∙◌, Bool, not,
  ◌&&◌, ◌||◌, List, [], ◌∷◌, arith,
}

abbrev pub sample : List Text
sample = codes "Ann's session-1, ip 10.0.0.1" ∷ codes " ANN " ∷ []

sample_terms :
    normalize_terms ⦃u = ascii⦄ sample
    ≡ codes "10"
      ∷ codes "10.0.0.1"
      ∷ codes "ann"
      ∷ codes "ann's"
      ∷ codes "ip"
      ∷ codes "session"
      ∷ codes "session-1"
      ∷ []
unfolding normalize_terms less_text eq_text line_bytes trim_space to_lower
sample_terms = refl

fold_left_inv {ℓ κ μ} :
    {A : Type ℓ} {S : Type κ} (P : S → Type μ) (f : S → A → S)
    → ((s : S) (a : A) → P s → P (f s a))
    → (s : S) (items : List A) → P s
    → P (fold_left f s items)
fold_left_inv P f h s [] p = p
fold_left_inv P f h s (a ∷ items) p = fold_left_inv P f h (f s a) items (h s a p)

-- a loop of which each round adds what `adds` says
fold_left-any {ℓ} :
    {A : Type ℓ} (t : Text) (f : List Text → A → List Text) (adds : A → Bool)
    → ((s : List Text) (a : A) → has t (f s a) ≡ (has t s || adds a))
    → (s : List Text) (items : List A) → has t (fold_left f s items) ≡ (has t s || any adds items)
fold_left-any t f adds h s [] = ground arith
fold_left-any t f adds h s (a ∷ items) =
    ground (arith, fold_left-any t f adds h (f s a) items, h s a)

module _ ⦃u : CharTables⦄ where
  -- the term `t` is one of the terms of the value, which is lower case and trimmed: a field that
  -- is not empty without its punctuation, or a token of two bytes at least
  abbrev field_gives : Text → Text → Bool
  field_gives t field =
      not (is_empty (normalize_field_term field)) && eq_text t (normalize_field_term field)

  abbrev token_gives : Text → Text → Bool
  token_gives t token = leb 2 (line_bytes (trim_space token)) && eq_text t (trim_space token)

  abbrev pub is_piece : Text → Text → Bool
  is_piece t value =
      any (field_gives t) (fields_func is_space value)
      || any (token_gives t) (fields_func splits_token value)

  abbrev pub is_term_of : List Text → Text → Bool
  is_term_of values t = any (λ v. is_piece t (trim_space (to_lower v))) values

  has-add_field :
      (t : Text) (s : List Text) (field : Text)
      → has t (add_field s field) ≡ (has t s || field_gives t field)
  unfolding add_field
  has-add_field t s field = ground (arith, has-add_term t s (normalize_field_term field))

  has-add_token :
      (t : Text) (s : List Text) (token : Text)
      → has t (add_token s token) ≡ (has t s || token_gives t token)
  unfolding add_token
  has-add_token t s token = ground (arith, has-add_term t s (trim_space token))

  has-add_lowered :
      (t : Text) (s : List Text) (value : Text)
      → has t (add_lowered s value) ≡ (has t s || is_piece t value)
  unfolding add_lowered
  has-add_lowered t s [] = unfold fields_func runs in ground arith
  has-add_lowered t s (c ∷ value) = ground (
    arith,
    fold_left-any t add_field (field_gives t) (has-add_field t) s
        (fields_func is_space (c ∷ value)),
    fold_left-any t add_token (token_gives t) (has-add_token t)
        (fold_left add_field s (fields_func is_space (c ∷ value)))
        (fields_func splits_token (c ∷ value)),
  )

  pub has-normalize_terms :
      (t : Text) (values : List Text) → has t (normalize_terms values) ≡ is_term_of values t
  unfolding normalize_terms add_value
  has-normalize_terms t values =
      has-sort_by t (fold_left add_value [] values)
      ∙ fold_left-any t add_value (λ v. is_piece t (trim_space (to_lower v)))
          (λ s v. has-add_lowered t s (trim_space (to_lower v))) [] values

  add_value-Distinct : (s : List Text) (value : Text) → Distinct s → Distinct (add_value s value)
  unfolding add_value add_lowered
  add_value-Distinct s value d = go (trim_space (to_lower value))
    where
      field_step : (s : List Text) (w : Text) → Distinct s → Distinct (add_field s w)
      field_step s w d =
          unfold add_field in ground (arith, add_term-Distinct s (normalize_field_term w))

      token_step : (s : List Text) (w : Text) → Distinct s → Distinct (add_token s w)
      token_step s w d = unfold add_token in ground (arith, add_term-Distinct s (trim_space w))

      go : (value : Text) → Distinct (add_lowered s value)
      go [] = d
      go (c ∷ value) =
          fold_left_inv Distinct add_token token_step
            (fold_left add_field s (fields_func is_space (c ∷ value)))
            (fields_func splits_token (c ∷ value))
            (fold_left_inv Distinct add_field field_step s (fields_func is_space (c ∷ value)) d)

  pub normalize_terms-Ascending : (values : List Text) → Ascending (normalize_terms values)
  unfolding normalize_terms
  normalize_terms-Ascending values =
      let set : List Text = fold_left add_value [] values in
      Distinct-Ascending (sort_by less_text set)
        (sort_by-IsSorted less_text less_text-IsStrictWeak set)
        (sort_by-Distinct set (fold_left_inv Distinct add_value add_value-Distinct [] values tt))

  -- NormalizeTerms returns its terms strictly ascending, so none twice; a text is among them
  -- exactly when one of the values gives it, as a field without the punctuation at its ends or as
  -- a token of two bytes or more; and values that give the same terms, in any order and however
  -- often, are normalised to the same list.
  pub normalize_terms-canonical :
      (values others : List Text)
      → ((t : Text) → is_term_of values t ≡ is_term_of others t)
      → Ascending (normalize_terms values)
        × ((t : Text) → has t (normalize_terms values) ≡ is_term_of values t)
        × (normalize_terms values ≡ normalize_terms others)
  normalize_terms-canonical values others same = (
    normalize_terms-Ascending values,
    (λ t. has-normalize_terms t values),
    Ascending-ext (normalize_terms values) (normalize_terms others)
        (normalize_terms-Ascending values) (normalize_terms-Ascending others)
        (λ t. has-normalize_terms t values ∙ same t ∙ sym (has-normalize_terms t others)),
  )
