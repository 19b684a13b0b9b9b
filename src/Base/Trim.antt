-- ===== src/Base/Trim.antt =====
-- Laws of strings.TrimSpace.
use mathlib.Core.Path.{◌≡◌, refl}
use mathlib.Core.Bool.{Bool, false}
use mathlib.Core.Logic.{inl, inr}
use mathlib.Core.List.{[], ◌∷◌}
use Prim.Native.Nat.{ℕ}
use native.Mathlib.Omega.{arith}
use semantic_intelligence_la.Base.Bools.{Bool-cases}
use semantic_intelligence_la.Base.Texts.{
  Text, is_space, trim_left, trim_right, trim_func, trim_space, is_blank,
}

module _ (p : ℕ → Bool) where
  -- no code point to trim at the front
  abbrev IsTight : Text → Type 0
  IsTight [] = Unit
  IsTight (c ∷ s) = p c ≡ false

  trim_left-IsTight : (s : Text) → IsTight (trim_left p s)
  unfolding trim_left
  trim_left-IsTight [] = tt
  trim_left-IsTight (c ∷ s) = elim (Bool-cases (p c)) [
    | inl e ↦ rw e (trim_left-IsTight s)
    | inr e ↦ rw e e
  ]

  trim_left_of_IsTight : (s : Text) → IsTight s → trim_left p s ≡ s
  unfolding trim_left
  trim_left_of_IsTight [] h = refl
  trim_left_of_IsTight (c ∷ s) h = rw h

  trim_right-IsTight : (s : Text) → IsTight s → IsTight (trim_right p s)
  unfolding trim_right
  trim_right-IsTight [] h = tt
  trim_right-IsTight (c ∷ s) h = rw h h

  trim_right_idempotent : (s : Text) → trim_right p (trim_right p s) ≡ trim_right p s
  unfolding trim_right
  trim_right_idempotent [] = refl
  trim_right_idempotent (c ∷ s) = ground (arith, trim_right_idempotent s)

  pub trim_func_idempotent : (s : Text) → trim_func p (trim_func p s) ≡ trim_func p s
  unfolding trim_func
  trim_func_idempotent s =
      rw
        (trim_left_of_IsTight (trim_right p (trim_left p s))
          (trim_right-IsTight (trim_left p s) (trim_left-IsTight s)))
        (trim_right_idempotent (trim_left p s))

-- nothing is trimmed from a text that holds nothing to trim
abbrev pub Keeps : (ℕ → Bool) → Text → Type 0
Keeps p [] = Unit
Keeps p (c ∷ s) = (p c ≡ false) × Keeps p s

trim_right_of_Keeps : (p : ℕ → Bool) (s : Text) → Keeps p s → trim_right p s ≡ s
unfolding trim_right
trim_right_of_Keeps p [] h = refl
trim_right_of_Keeps p (c ∷ s) (e, h) = rw (e, trim_right_of_Keeps p s h) refl

pub trim_func_of_Keeps : (p : ℕ → Bool) (s : Text) → Keeps p s → trim_func p s ≡ s
unfolding trim_func trim_left trim_right
trim_func_of_Keeps p [] h = refl
trim_func_of_Keeps p (c ∷ s) (e, h) = rw e (rw (e, trim_right_of_Keeps p s h) refl)

pub trim_space_idempotent : (s : Text) → trim_space (trim_space s) ≡ trim_space s
unfolding trim_space
trim_space_idempotent s = trim_func_idempotent is_space s

pub is_blank-trim_space : (s : Text) → is_blank (trim_space s) ≡ is_blank s
unfolding is_blank
is_blank-trim_space s = rw trim_space_idempotent
