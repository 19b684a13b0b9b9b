-- ===== src/Base/Sort.antt =====
-- sort.Slice, sort.SliceStable and sort.Strings: a stable insertion sort by the `less` function.
-- sort.Slice promises no order of elements that `less` does not tell apart; this is one that it
-- may return.
use Prim.Native.Nat.{suc}
use mathlib.Core.Path.{◌≡◌, refl, ap, ◌∙◌}
use mathlib.Core.Bool.{Bool, true, false, ◌||◌, ◌&&◌}
use mathlib.Core.Logic.{inl, inr}
use mathlib.Core.List.{List, [], ◌∷◌, Perm}
use mathlib.Core.List.Perm
use native.Mathlib.Omega.{arith}
use semantic_intelligence_la.Base.Bools.{ltb, ◌==◌, if◌then◌else◌, Bool-cases}
use semantic_intelligence_la.Base.Lists.{length, All, All-map_pred}
use semantic_intelligence_la.Base.Texts.{Text}

-- what Go asks of a `less` function: a strict weak order
pub record IsStrictWeak {ℓ} {A : Type ℓ} (less : A → A → Bool) : Type ℓ where
  pub asym : (x y : A) → less x y ≡ true → less y x ≡ false
  pub neg_trans : (x y z : A) → less y x ≡ false → less z y ≡ false → less z x ≡ false

module _ {ℓ} {A : Type ℓ} (less : A → A → Bool) where
  unfoldable pub insert_by : A → List A → List A
  insert_by x [] = x ∷ []
  insert_by x (y ∷ ys) = let rest = insert_by x ys in if less y x then y ∷ rest else x ∷ y ∷ ys

  unfoldable pub sort_by : List A → List A
  unfolding insert_by
  sort_by [] = []
  sort_by (x ∷ xs) = insert_by x (sort_by xs)

  -- nothing that stands later is less
  abbrev pub IsSorted : List A → Type 0
  IsSorted [] = Unit
  IsSorted (x ∷ xs) = All (λ y. less y x ≡ false) xs × IsSorted xs

  insert_by-perm : (x : A) (l : List A) → Perm (insert_by x l) (x ∷ l)
  unfolding insert_by
  insert_by-perm x [] = Perm.refl _
  insert_by-perm x (y ∷ ys) = elim (Bool-cases (less y x)) [
    | inl p ↦ rw p (Perm.trans (Perm.cons y (insert_by-perm x ys)) (Perm.swap x y ys))
    | inr p ↦ rw p (Perm.refl _)
  ]

  pub sort_by-perm : (l : List A) → Perm (sort_by l) l
  unfolding sort_by
  sort_by-perm [] = Perm.refl _
  sort_by-perm (x ∷ xs) = Perm.trans (insert_by-perm x (sort_by xs)) (Perm.cons x (sort_by-perm xs))

  insert_by-All {κ} : (P : A → Type κ) (x : A) (l : List A) → P x → All P l → All P (insert_by x l)
  unfolding insert_by
  insert_by-All P x [] p h = (p, tt)
  insert_by-All P x (y ∷ ys) p (q, h) = elim (Bool-cases (less y x)) [
    | inl e ↦ rw e (q, insert_by-All P x ys p h)
    | inr e ↦ rw e (p, (q, h))
  ]

  pub sort_by-All {κ} : (P : A → Type κ) (l : List A) → All P l → All P (sort_by l)
  unfolding sort_by
  sort_by-All P [] h = tt
  sort_by-All P (x ∷ xs) (p, h) = insert_by-All P x (sort_by xs) p (sort_by-All P xs h)

  length-insert_by : (x : A) (l : List A) → length (insert_by x l) ≡ length (x ∷ l)
  unfolding insert_by
  length-insert_by x [] = refl
  length-insert_by x (y ∷ ys) = ground (arith, length-insert_by x ys)

  pub length-sort_by : (l : List A) → length (sort_by l) ≡ length l
  unfolding sort_by
  length-sort_by [] = refl
  length-sort_by (x ∷ xs) = length-insert_by x (sort_by xs) ∙ ap suc (length-sort_by xs)

  module _ (order : IsStrictWeak less) where
    insert_by-IsSorted : (x : A) (l : List A) → IsSorted l → IsSorted (insert_by x l)
    unfolding insert_by
    insert_by-IsSorted x [] s = (tt, tt)
    insert_by-IsSorted x (y ∷ ys) (below, s) = elim (Bool-cases (less y x)) [
      | inl e ↦ rw e (
        insert_by-All (λ z. less z y ≡ false) x ys (order.asym y x e) below,
        insert_by-IsSorted x ys s,
      )
      | inr e ↦ rw e ((e, All-map_pred _ _ (λ z h. order.neg_trans x y z e h) ys below), (below, s))
    ]

    pub sort_by-IsSorted : (l : List A) → IsSorted (sort_by l)
    unfolding sort_by
    sort_by-IsSorted [] = tt
    sort_by-IsSorted (x ∷ xs) = insert_by-IsSorted x (sort_by xs) (sort_by-IsSorted xs)

  insert_by_front : (x : A) (l : List A) → All (λ y. less y x ≡ false) l → insert_by x l ≡ x ∷ l
  unfolding insert_by
  insert_by_front x [] h = refl
  insert_by_front x (y ∷ ys) (e, h) = rw e

  -- sorting what is sorted changes nothing
  pub sort_by_of_IsSorted : (l : List A) → IsSorted l → sort_by l ≡ l
  unfolding sort_by
  sort_by_of_IsSorted [] s = refl
  sort_by_of_IsSorted (x ∷ xs) (below, s) =
      rw (sort_by_of_IsSorted xs s) (insert_by_front x xs below)

-- `<` on strings, by code points
unfoldable pub less_text : Text → Text → Bool
less_text _ [] = false
less_text [] (y ∷ ys) = true
less_text (x ∷ xs) (y ∷ ys) = ltb x y || (x == y && less_text xs ys)

less_text_asym : (x y : Text) → less_text x y ≡ true → less_text y x ≡ false
unfolding less_text
less_text_asym [] [] h = cc
less_text_asym [] (b ∷ y) h = refl
less_text_asym (a ∷ x) [] h = cc
less_text_asym (a ∷ x) (b ∷ y) h = ground (arith, less_text_asym x y)

less_text_neg_trans :
    (x y z : Text) → less_text y x ≡ false → less_text z y ≡ false → less_text z x ≡ false
unfolding less_text
less_text_neg_trans [] [] [] h k = refl
less_text_neg_trans [] [] (c ∷ z) h k = refl
less_text_neg_trans [] (b ∷ y) [] h k = refl
less_text_neg_trans [] (b ∷ y) (c ∷ z) h k = refl
less_text_neg_trans (a ∷ x) [] z h k = cc
less_text_neg_trans (a ∷ x) (b ∷ y) [] h k = cc
less_text_neg_trans (a ∷ x) (b ∷ y) (c ∷ z) h k = ground (arith, less_text_neg_trans x y z)

pub less_text-IsStrictWeak : IsStrictWeak less_text
less_text-IsStrictWeak = record { asym = less_text_asym; neg_trans = less_text_neg_trans }

-- two strings of which neither is less are one
pub less_text_total : (x y : Text) → less_text x y ≡ false → less_text y x ≡ false → x ≡ y
unfolding less_text
less_text_total [] [] h k = refl
less_text_total [] (b ∷ y) h k = cc
less_text_total (a ∷ x) [] h k = cc
less_text_total (a ∷ x) (b ∷ y) h k = ground (arith, less_text_total x y)
