-- ===== src/Contracts/Retrieval/Terms.antt =====
-- internal/contracts/unified/retrieval/types.go: NormalizeTerms, the terms that a text is found by.
use semantic_intelligence_la.Storage.JsonLines.{line_bytes, fold_left}
use semantic_intelligence_la.Base.{
  ltb, ◌==◌, if◌then◌else◌, is_empty, any, Text, CharTables, eq_text, is_space, trim_func,
  trim_space, to_lower, sort_by, less_text, ℕ, Bool, true, false, not, ◌&&◌, ◌||◌, List, [], ◌∷◌,
  ◌++◌,
}

-- one run of kept code points, if there is one
abbrev pub flush : Text → List Text → List Text
flush [] runs = runs
flush (c ∷ cur) runs = (c ∷ cur) ∷ runs

-- the maximal runs of code points that `p` does not separate, behind the run `cur` so far
unfoldable pub runs : (ℕ → Bool) → Text → Text → List Text
runs p cur [] = flush cur []
runs p cur (c ∷ s) = elim (p c) [
  | true ↦ flush cur (runs p [] s)
  | false ↦ runs p (cur ++ c ∷ []) s
]

-- strings.FieldsFunc
unfoldable pub fields_func : (ℕ → Bool) → Text → List Text
unfolding runs
fields_func p = runs p []

-- `terms[term] = struct{}{}` on a set of terms
unfoldable pub add_term : List Text → Text → List Text
add_term terms term = if any (eq_text term) terms then terms else terms ++ term ∷ []

module _ ⦃u : CharTables⦄ where
  -- the function that splits a text into tokens
  unfoldable pub splits_token : ℕ → Bool
  splits_token c = not (u.is_letter c) && not (u.is_digit c)

  -- the function that normalizeFieldTerm trims by
  unfoldable pub trims_field : ℕ → Bool
  trims_field c =
      not (u.is_letter c || u.is_digit c || c == 46 || c == 45 || c == 95 || c == 58 || c == 47)

  unfoldable pub normalize_field_term : Text → Text
  unfolding trims_field
  normalize_field_term value = trim_func trims_field (trim_space value)

  unfoldable pub add_field : List Text → Text → List Text
  unfolding normalize_field_term add_term
  add_field terms field =
      if is_empty (normalize_field_term field)
      then terms
      else add_term terms (normalize_field_term field)

  -- `len` counts the bytes of a token
  unfoldable pub add_token : List Text → Text → List Text
  unfolding add_term
  add_token terms token =
      if ltb (line_bytes (trim_space token)) 2 then terms else add_term terms (trim_space token)

  -- one round of the loop of NormalizeTerms, on the lower-cased and trimmed value
  unfoldable pub add_lowered : List Text → Text → List Text
  unfolding add_field add_token fields_func splits_token
  add_lowered terms value =
      if is_empty value
      then terms
      else fold_left add_token (fold_left add_field terms (fields_func is_space value))
          (fields_func splits_token value)

  unfoldable pub add_value : List Text → Text → List Text
  unfolding add_lowered
  add_value terms value = add_lowered terms (trim_space (to_lower value))

  unfoldable pub normalize_terms : List Text → List Text
  unfolding add_value sort_by
  normalize_terms values = sort_by less_text (fold_left add_value [] values)
