-- ===== src/Pipeline/Index/Terms.antt =====
-- The term `network`, which every title gives.
use semantic_intelligence_la.Base.Trim.{trim_func_of_Keeps}
use semantic_intelligence_la.Contracts.Retrieval.Terms.{
  fields_func, runs, normalize_field_term, trims_field, normalize_terms,
}
use semantic_intelligence_la.Contracts.Retrieval.TermSets.{has}
use semantic_intelligence_la.Contracts.Retrieval.TermLaws.{is_piece, has-normalize_terms}
use semantic_intelligence_la.Base.{
  Bool-cases, is_empty, any, Text, codes, CharTables, eq_text, is_space, trim_left, trim_right,
  trim_func, trim_space, to_lower, eq_text_iff, eq_text_refl, ℕ, ◌≤◌, ◌≡◌, refl, sym, ap, ◌∙◌, inl,
  inr, Bool, true, false, List, [], ◌∷◌, ◌++◌, map, arith,
}

-- The tables of `unicode` on the Latin small letters and the space.
pub record IsLatin (u : CharTables) : Type 0 where
  pub lower : (c : ℕ) → 97 ≤ c → c ≤ 122 → u.lower c ≡ c
  pub letter : (c : ℕ) → 97 ≤ c → c ≤ 122 → u.is_letter c ≡ true
  pub lower_space : u.lower 32 ≡ 32

abbrev pub network : Text
network = codes "network"

module _ ⦃u : CharTables⦄ (latin : IsLatin u) where
  network-lower : (t : Text) → to_lower (network ++ t) ≡ network ++ to_lower t
  unfolding to_lower
  network-lower t =
      rw
        (
          latin.lower 110 (omega arith) (omega arith),
          latin.lower 101 (omega arith) (omega arith),
          latin.lower 116 (omega arith) (omega arith),
          latin.lower 119 (omega arith) (omega arith),
          latin.lower 111 (omega arith) (omega arith),
          latin.lower 114 (omega arith) (omega arith),
          latin.lower 107 (omega arith) (omega arith),
        )
        refl

  pub network-lower_alone : to_lower network ≡ network
  network-lower_alone = network-lower [] ∙ unfold to_lower in refl

  letter-kept : (c : ℕ) → 97 ≤ c → c ≤ 122 → trims_field c ≡ false
  unfolding trims_field
  letter-kept c low high = rw (latin.letter c low high) refl

  network-field : normalize_field_term network ≡ network
  unfolding normalize_field_term
  network-field =
      let bare : trim_space network ≡ network = unfold trim_space in refl in
      ap (trim_func trims_field) bare
      ∙ trim_func_of_Keeps trims_field network (
        letter-kept 110 (omega arith) (omega arith),
        (
          letter-kept 101 (omega arith) (omega arith),
          (
            letter-kept 116 (omega arith) (omega arith),
            (
              letter-kept 119 (omega arith) (omega arith),
              (
                letter-kept 111 (omega arith) (omega arith),
                (
                  letter-kept 114 (omega arith) (omega arith),
                  (letter-kept 107 (omega arith) (omega arith), tt),
                ),
              ),
            ),
          ),
        ),
      )

  network-trimmed :
      (c : ℕ) (w : Text)
      → is_space c ≡ false
      → trim_space (network ++ 32 ∷ c ∷ w) ≡ network ++ 32 ∷ c ∷ trim_right is_space w
  unfolding trim_space trim_func trim_left trim_right
  network-trimmed c w h = rw h refl

  -- a value that begins with the word and a space gives the term
  network-is_piece :
      (c : ℕ) (w : Text)
      → is_space c ≡ false
      → is_piece network (trim_space (network ++ 32 ∷ c ∷ w)) ≡ true
  network-is_piece c w h =
      let rest : Text = c ∷ trim_right is_space w in
      let first : fields_func is_space (network ++ 32 ∷ rest) ≡ network ∷ runs is_space [] rest =
        unfold fields_func runs is_space in refl in
      rw (network-trimmed c w h, first, network-field, eq_text_refl network) refl

  -- so does a list of values of which it is the first
  pub has-network :
      (c : ℕ) (t : Text) (values : List Text)
      → is_space (u.lower c) ≡ false
      → has network (normalize_terms ((network ++ 32 ∷ c ∷ t) ∷ values)) ≡ true
  has-network c t values h =
      let piece : is_piece network (trim_space (to_lower (network ++ 32 ∷ c ∷ t))) ≡ true =
        ap (λ v. is_piece network (trim_space v)) (network-lower (32 ∷ c ∷ t))
        ∙ (unfold to_lower in
            rw latin.lower_space (network-is_piece (u.lower c) (map u.lower t) h)) in
      has-normalize_terms network ((network ++ 32 ∷ c ∷ t) ∷ values) ∙ ground (arith, piece)

  pub any_of_has :
      (f : Text → Bool) (t : Text) (values : List Text)
      → has t values ≡ true
      → f t ≡ true
      → any f values ≡ true
  any_of_has f t [] h k = cc
  any_of_has f t (x ∷ values) h k = elim (Bool-cases (eq_text t x)) [
    | inl same ↦
        let here : f x ≡ true = ap f (sym ((eq_text_iff t x).0 same)) ∙ k in ground (arith, here)
    | inr other ↦ ground (arith, any_of_has f t values (rw other at h) k)
  ]

  -- and so do values that hold the term already
  pub has-network_again :
      (values : List Text) → has network values ≡ true → has network (normalize_terms values) ≡ true
  has-network_again values h =
      has-normalize_terms network values
      ∙ any_of_has (λ v. is_piece network (trim_space (to_lower v))) network values h network_alone
    where
      network_alone : is_piece network (trim_space (to_lower network)) ≡ true
      network_alone =
          let lowered : to_lower network ≡ network = network-lower_alone in
          let trimmed : trim_space network ≡ network = unfold trim_space in refl in
          let one : fields_func is_space network ≡ network ∷ [] =
            unfold fields_func runs is_space in refl in
          rw (lowered, trimmed, one, network-field, eq_text_refl network) refl

pub is_empty_of_has : (t : Text) (terms : List Text) → has t terms ≡ true → is_empty terms ≡ false
is_empty_of_has t [] h = cc
is_empty_of_has t (x ∷ terms) h = refl
