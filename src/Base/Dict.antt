-- ===== src/Base/Dict.antt =====
-- Go maps with string keys, as association lists in insertion order.
use mathlib.Core.Path.{◌≡◌, refl, subst}
use mathlib.Core.Logic.{inl, inr}
use mathlib.Core.Option.{Option, none, some}
use mathlib.Core.List.{List, [], ◌∷◌, map}
use native.Mathlib.Omega.{arith}
use semantic_intelligence_la.Base.Bools.{if◌then◌else◌, Bool-cases}
use semantic_intelligence_la.Base.Texts.{Text, eq_text, eq_text_iff}

abbrev pub Dict {ℓ} : Type ℓ → Type ℓ
Dict V = List (Text × V)

module _ {ℓ} {V : Type ℓ} where
  -- `v, ok := m[key]`
  unfoldable pub lookup : Text → Dict V → Option V
  lookup key [] = none
  lookup key ((k, v) ∷ rest) = if eq_text k key then some v else lookup key rest

  -- `m[key] = value`
  unfoldable pub insert : Text → V → Dict V → Dict V
  insert key value [] = (key, value) ∷ []
  insert key value ((k, v) ∷ rest) =
      let later = (k, v) ∷ insert key value rest in
      if eq_text k key then (key, value) ∷ rest else later

  pub lookup-insert :
      (key other : Text) (value : V) (d : Dict V)
      → lookup other (insert key value d)
        ≡ (if eq_text key other then some value else lookup other d)
  unfolding insert lookup
  lookup-insert key other value [] = refl
  lookup-insert key other value ((k, v) ∷ rest) =
      let ih = lookup-insert key other value rest in
      ground (arith, ih, eq_text_iff k other, eq_text_iff k key, eq_text_iff key other)

  -- a predicate of every key and value
  abbrev pub Each {κ} : (Text → V → Type κ) → Dict V → Type κ
  Each P [] = Unit
  Each P ((k, v) ∷ m) = P k v × Each P m

  pub insert-Each {κ} :
      (P : Text → V → Type κ) (k : Text) (v : V) (m : Dict V)
      → P k v
      → Each P m
      → Each P (insert k v m)
  unfolding insert
  insert-Each P k v [] p h = (p, tt)
  insert-Each P k v ((j, w) ∷ m) p (q, h) = ground (arith, insert-Each P k v m p h)

  pub lookup-Each {κ} :
      (P : Text → V → Type κ) (k : Text) (m : Dict V) {v : V}
      → Each P m
      → lookup k m ≡ some v
      → P k v
  unfolding lookup
  lookup-Each P k [] h e = cc
  lookup-Each P k ((j, w) ∷ m) {v} (p, h) e = elim (Bool-cases (eq_text j k)) [
    | inl same ↦
        let found : w ≡ v = ground arith in
        subst (λ x. P k x) found (subst (λ x. P x w) ((eq_text_iff j k).0 same) p)
    | inr other ↦ lookup-Each P k m h (rw other at e)
  ]

  unfoldable pub values : Dict V → List V
  values = map (λ (_, v). v)

  pub lookup-insert_self : (k : Text) (v : V) (m : Dict V) → lookup k (insert k v m) ≡ some v
  lookup-insert_self k v m = ground (arith, lookup-insert k k v m, eq_text_iff k k)
