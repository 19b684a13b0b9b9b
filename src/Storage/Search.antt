-- ===== src/Storage/Search.antt =====
-- The body that the Search methods share: keep what matches, sort it, cut it at the limit.
use mathlib.Core.List.{Perm}
use semantic_intelligence_la.Base.Times.{ℤ, pos, negsuc}
use mathlib.Core.Path.{subst}
use mathlib.Core.List.{append-nil}
use semantic_intelligence_la.Base.{
  ltb, if◌then◌else◌, Bool-cases, length, take, All, filter_by, length-take, All-append_left,
  All-append_right, All-filter_by, All-filter_by_keeps, IsStrictWeak, sort_by, IsSorted,
  sort_by-perm, sort_by-All, sort_by-IsSorted, ℕ, zero, suc, ◌≤◌, ◌≡◌, refl, sym, ap, inl, inr,
  Bool, true, false, List, [], ◌∷◌, ◌++◌, arith,
}

module _ {ℓ} {A : Type ℓ} where
  abbrev pub drop : ℕ → List A → List A
  drop zero xs = xs
  drop (suc n) [] = []
  drop (suc n) (x ∷ xs) = drop n xs

  take-drop : (n : ℕ) (xs : List A) → take n xs ++ drop n xs ≡ xs
  take-drop zero xs = refl
  take-drop (suc n) [] = refl
  take-drop (suc n) (x ∷ xs) = ap (◌∷◌ x) (take-drop n xs)

  -- `if limit > 0 && len(results) > limit { results = results[:limit] }`
  unfoldable pub truncate : ℤ → List A → List A
  truncate (negsuc _) xs = xs
  truncate (pos zero) xs = xs
  truncate (pos (suc n)) xs = if ltb (suc n) (length xs) then take (suc n) xs else xs

  pub truncate-nil : (limit : ℤ) → truncate limit [] ≡ []
  unfolding truncate
  truncate-nil (negsuc _) = refl
  truncate-nil (pos zero) = refl
  truncate-nil (pos (suc n)) = ground arith

  -- what truncate leaves out
  truncated : ℤ → List A → List A
  truncated (negsuc _) xs = []
  truncated (pos zero) xs = []
  truncated (pos (suc n)) xs = if ltb (suc n) (length xs) then drop (suc n) xs else []

  truncate-truncated : (limit : ℤ) (xs : List A) → truncate limit xs ++ truncated limit xs ≡ xs
  unfolding truncate truncated
  truncate-truncated (negsuc _) xs = append-nil xs
  truncate-truncated (pos zero) xs = append-nil xs
  truncate-truncated (pos (suc n)) xs = elim (Bool-cases (ltb (suc n) (length xs))) [
    | inl more ↦ rw more (take-drop (suc n) xs)
    | inr few ↦ rw few (append-nil xs)
  ]

  -- at a positive limit at most so many are left
  abbrev pub WithinLimit : ℤ → List A → Type 0
  WithinLimit (pos (suc n)) xs = length xs ≤ suc n
  WithinLimit _ xs = Unit

  truncate-WithinLimit : (limit : ℤ) (xs : List A) → WithinLimit limit (truncate limit xs)
  unfolding truncate
  truncate-WithinLimit (negsuc _) xs = tt
  truncate-WithinLimit (pos zero) xs = tt
  truncate-WithinLimit (pos (suc n)) xs = elim (Bool-cases (ltb (suc n) (length xs))) [
    | inl more ↦ rw more (length-take (suc n) xs)
    | inr few ↦ rw few (ground arith)
  ]

module _ {ℓ} {A : Type ℓ} (p : A → Bool) (less : A → A → Bool) (limit : ℤ) where
  unfoldable pub search_list : List A → List A
  unfolding truncate sort_by filter_by
  search_list xs = truncate limit (sort_by less (filter_by p xs))

  -- `found` answers a search in `xs`: what it holds passes the test, it is sorted, it keeps the
  -- limit, and it and `rest` together are all the elements of `xs` that pass, of which none in
  -- `rest` comes before one that is found
  pub record IsAnswer (xs found rest : List A) : Type ℓ where
    pub passes : All (λ x. p x ≡ true) found
    pub sorted : IsSorted less found
    pub within : WithinLimit limit found
    pub complete : Perm (found ++ rest) (filter_by p xs)
    pub best : All (λ x. All (λ y. less y x ≡ false) rest) found

module _ {ℓ} {A : Type ℓ} (less : A → A → Bool) where
  IsSorted-append_left : (xs ys : List A) → IsSorted less (xs ++ ys) → IsSorted less xs
  IsSorted-append_left [] ys s = tt
  IsSorted-append_left (x ∷ xs) ys (below, s) =
      (All-append_left (λ y. less y x ≡ false) xs ys below, IsSorted-append_left xs ys s)

  IsSorted-append_across :
      (xs ys : List A) → IsSorted less (xs ++ ys) → All (λ x. All (λ y. less y x ≡ false) ys) xs
  IsSorted-append_across [] ys s = tt
  IsSorted-append_across (x ∷ xs) ys (below, s) =
      (All-append_right (λ y. less y x ≡ false) xs ys below, IsSorted-append_across xs ys s)

module _ {ℓ} {A : Type ℓ} (p : A → Bool) (less : A → A → Bool) (order : IsStrictWeak less)
    (limit : ℤ) (xs : List A) where
  pub rest_of : List A
  rest_of = truncated limit (sort_by less (filter_by p xs))

  pub search_list-IsAnswer : IsAnswer p less limit xs (search_list p less limit xs) rest_of
  unfolding search_list rest_of
  search_list-IsAnswer =
      let kept : List A = filter_by p xs in
      let all : List A = sort_by less kept in
      let parts = truncate-truncated limit all in
      let sorted : IsSorted less (truncate limit all ++ truncated limit all) =
        subst (IsSorted less) (sym parts) (sort_by-IsSorted less order kept) in
      let passing : All (λ x. p x ≡ true) (truncate limit all ++ truncated limit all) =
        subst (All (λ x. p x ≡ true)) (sym parts) (sort_by-All less _ kept (All-filter_by p xs)) in
      record {
        passes = All-append_left _ (truncate limit all) (truncated limit all) passing;
        sorted = IsSorted-append_left less (truncate limit all) (truncated limit all) sorted;
        within = truncate-WithinLimit limit all;
        complete = subst (λ l. Perm l kept) (sym parts) (sort_by-perm less kept);
        best = IsSorted-append_across less (truncate limit all) (truncated limit all) sorted;
      }

  pub search_list-All {κ} : (P : A → Type κ) → All P xs → All P (search_list p less limit xs)
  unfolding search_list
  search_list-All P h =
      let kept : List A = filter_by p xs in
      let all : List A = sort_by less kept in
      All-append_left P (truncate limit all) (truncated limit all) (
        subst (All P) (sym (truncate-truncated limit all))
          (sort_by-All less P kept (All-filter_by_keeps P p xs h)))
