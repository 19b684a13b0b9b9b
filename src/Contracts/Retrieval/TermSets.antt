-- ===== src/Contracts/Retrieval/TermSets.antt =====
-- Sets of terms as lists without repetition, and their sorted form.
use mathlib.Core.Path.{subst}
use semantic_intelligence_la.Base.Sort.{insert_by}
use semantic_intelligence_la.Contracts.Retrieval.Terms.{add_term}
use semantic_intelligence_la.Base.{
  Bool-cases, any, All, Text, eq_text, eq_text_iff, eq_text_refl, sort_by, IsSorted, less_text,
  less_text-IsStrictWeak, less_text_total, ◌≡◌, refl, sym, ap, ◌∙◌, inl, inr, Bool, true, false,
  ◌||◌, List, [], ◌∷◌, ◌++◌, arith,
}

abbrev pub has : Text → List Text → Bool
has t terms = any (eq_text t) terms

abbrev pub Distinct : List Text → Type 0
Distinct [] = Unit
Distinct (x ∷ xs) = (has x xs ≡ false) × Distinct xs

-- each term is below all that stand later
abbrev pub Ascending : List Text → Type 0
Ascending [] = Unit
Ascending (x ∷ xs) = All (λ y. less_text x y ≡ true) xs × Ascending xs

has-append : (t : Text) (xs ys : List Text) → has t (xs ++ ys) ≡ (has t xs || has t ys)
has-append t [] ys = refl
has-append t (x ∷ xs) ys = ground (arith, has-append t xs ys)

Distinct-append_one :
    (xs : List Text) (x : Text) → has x xs ≡ false → Distinct xs → Distinct (xs ++ x ∷ [])
Distinct-append_one [] x h d = (refl, tt)
Distinct-append_one (y ∷ ys) x h (f, d) = (
  ground (arith, has-append y ys (x ∷ []), eq_text_iff x y, eq_text_iff y x),
  Distinct-append_one ys x (ground arith) d,
)

pub add_term-Distinct :
    (terms : List Text) (term : Text) → Distinct terms → Distinct (add_term terms term)
unfolding add_term
add_term-Distinct terms term d = elim (Bool-cases (has term terms)) [
  | inl old ↦ rw old d
  | inr new ↦ rw new (Distinct-append_one terms term new d)
]

pub has-add_term :
    (t : Text) (terms : List Text) (term : Text)
    → has t (add_term terms term) ≡ (has t terms || eq_text t term)
unfolding add_term
has-add_term t terms term = elim (Bool-cases (has term terms)) [
  | inl old ↦ rw old (elim (Bool-cases (eq_text t term)) [
    | inl same ↦
        let e : t ≡ term = (eq_text_iff t term).0 same in
        let held : has t terms ≡ true = rw (← e) at old in ground (arith, held, same)
    | inr other ↦ ground (arith, other)
  ])
  | inr new ↦ rw new (has-append t terms (term ∷ []) ∙ ground arith)
]

has-insert_by : (t x : Text) (l : List Text) → has t (insert_by less_text x l) ≡ has t (x ∷ l)
unfolding insert_by
has-insert_by t x [] = refl
has-insert_by t x (y ∷ ys) = ground (arith, has-insert_by t x ys)

pub has-sort_by : (t : Text) (l : List Text) → has t (sort_by less_text l) ≡ has t l
unfolding sort_by
has-sort_by t [] = refl
has-sort_by t (x ∷ xs) = ground (arith, has-insert_by t x (sort_by less_text xs), has-sort_by t xs)

insert_by-Distinct :
    (x : Text) (l : List Text) → has x l ≡ false → Distinct l → Distinct (insert_by less_text x l)
unfolding insert_by
insert_by-Distinct x [] h d = (refl, tt)
insert_by-Distinct x (y ∷ ys) h (f, d) = elim (Bool-cases (less_text y x)) [
  | inl before ↦ rw before (
    ground (arith, has-insert_by y x ys, eq_text_iff x y, eq_text_iff y x),
    insert_by-Distinct x ys (ground arith) d,
  )
  | inr after ↦ rw after (h, (f, d))
]

pub sort_by-Distinct : (l : List Text) → Distinct l → Distinct (sort_by less_text l)
unfolding sort_by
sort_by-Distinct [] d = tt
sort_by-Distinct (x ∷ xs) (f, d) =
    insert_by-Distinct x (sort_by less_text xs) (has-sort_by x xs ∙ f) (sort_by-Distinct xs d)

All-less :
    (x : Text) (xs : List Text)
    → All (λ y. less_text y x ≡ false) xs
    → has x xs ≡ false
    → All (λ y. less_text x y ≡ true) xs
All-less x [] h f = tt
All-less x (y ∷ ys) (h, hs) f = (
  elim (Bool-cases (less_text x y)) [
    | inl below ↦ below
    | inr level ↦ let e : x ≡ y = less_text_total x y level h in ground (arith, eq_text_iff x y)
  ],
  All-less x ys hs (ground arith),
)

pub Distinct-Ascending : (l : List Text) → IsSorted less_text l → Distinct l → Ascending l
Distinct-Ascending [] s d = tt
Distinct-Ascending (x ∷ xs) (below, s) (f, d) = (All-less x xs below f, Distinct-Ascending xs s d)

less_text_irrefl : (x : Text) → less_text x x ≡ false
less_text_irrefl x = elim (Bool-cases (less_text x x)) [
  | inl h ↦ less_text-IsStrictWeak.asym x x h
  | inr h ↦ h
]

-- what is in a list of terms above `x` is above `x`
has-less :
    (x t : Text) (l : List Text)
    → All (λ y. less_text x y ≡ true) l
    → has t l ≡ true
    → less_text x t ≡ true
has-less x t [] a h = cc
has-less x t (y ∷ ys) (p, a) h = elim (Bool-cases (eq_text t y)) [
  | inl same ↦ let e : t ≡ y = (eq_text_iff t y).0 same in rw e p
  | inr other ↦ has-less x t ys a (rw other at h)
]

has_not_self : (x : Text) (l : List Text) → All (λ y. less_text x y ≡ true) l → has x l ≡ false
has_not_self x l a = elim (Bool-cases (has x l)) [
  | inl h ↦ ground (arith, has-less x x l a h, less_text_irrefl x)
  | inr h ↦ h
]

module _ (x : Text) (xs ys : List Text) (a : All (λ y. less_text x y ≡ true) xs)
    (b : All (λ y. less_text x y ≡ true) ys)
    (same : (t : Text) → has t (x ∷ xs) ≡ has t (x ∷ ys)) where
  tails_same : (t : Text) → has t xs ≡ has t ys
  tails_same t = elim (Bool-cases (eq_text t x)) [
    | inl here ↦
        let e : t ≡ x = (eq_text_iff t x).0 here in
        rw e (has_not_self x xs a ∙ sym (has_not_self x ys b))
    | inr there ↦ rw there at (same t)
  ]

-- ascending lists of the same terms are equal
heads_same :
    (x y : Text) (xs ys : List Text)
    → Ascending (x ∷ xs)
    → Ascending (y ∷ ys)
    → ((t : Text) → has t (x ∷ xs) ≡ has t (y ∷ ys))
    → x ≡ y
heads_same x y xs ys (a, _) (b, _) same = elim (Bool-cases (eq_text x y)) [
  | inl e ↦ (eq_text_iff x y).0 e
  | inr n ↦
      let in_ys : has x ys ≡ true = ground (arith, same x, eq_text_refl x) in
      let in_xs : has y xs ≡ true =
        ground (arith, same y, eq_text_refl y, eq_text_iff x y, eq_text_iff y x) in
      ground (
        arith,
        has-less y x ys b in_ys,
        has-less x y xs a in_xs,
        less_text-IsStrictWeak.asym x y (has-less x y xs a in_xs),
      )
]

pub Ascending-ext :
    (xs ys : List Text) → Ascending xs → Ascending ys → ((t : Text) → has t xs ≡ has t ys) → xs ≡ ys
Ascending-ext [] [] a b same = refl
Ascending-ext [] (y ∷ ys) a b same = ground (arith, same y, eq_text_refl y)
Ascending-ext (x ∷ xs) [] a b same = ground (arith, same x, eq_text_refl x)
Ascending-ext (x ∷ xs) (y ∷ ys) a b same =
    let e : y ≡ x = sym (heads_same x y xs ys a b same) in
    let b' : Ascending (x ∷ ys) = rw (← e) b in
    let same' : (t : Text) → has t (x ∷ xs) ≡ has t (x ∷ ys) =
      subst (λ z. (t : Text) → has t (x ∷ xs) ≡ has t (z ∷ ys)) e same in
    rw e (ap (◌∷◌ x) (Ascending-ext xs ys a.1 b.1 (tails_same x xs ys a.0 b'.0 same')))
