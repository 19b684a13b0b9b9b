-- ===== src/Base/Blanks.antt =====
-- Which texts are blank: those of white space alone.
use Prim.Native.Nat.{ℕ}
use mathlib.Core.Path.{◌≡◌, refl, ◌∙◌}
use mathlib.Core.Bool.{Bool, true, false, ◌&&◌}
use mathlib.Core.List.{List, [], ◌∷◌, ◌++◌}
use native.Mathlib.Omega.{arith}
use semantic_intelligence_la.Base.Lists.{is_empty}
use semantic_intelligence_la.Base.Texts.{
  Text, is_space, trim_left, trim_right, trim_func, trim_space, is_blank, join,
}

module _ (p : ℕ → Bool) where
  abbrev pub every : Text → Bool
  every [] = true
  every (c ∷ s) = p c && every s

  is_empty-trim_right : (s : Text) → is_empty (trim_right p s) ≡ every s
  unfolding trim_right
  is_empty-trim_right [] = refl
  is_empty-trim_right (c ∷ s) = ground (arith, is_empty-trim_right s)

  every-trim_left : (s : Text) → every (trim_left p s) ≡ every s
  unfolding trim_left
  every-trim_left [] = refl
  every-trim_left (c ∷ s) = ground (arith, every-trim_left s)

  every-append : (s t : Text) → every (s ++ t) ≡ (every s && every t)
  every-append [] t = refl
  every-append (c ∷ s) t = ground (arith, every-append s t)

is_blank-every : (s : Text) → is_blank s ≡ every is_space s
unfolding is_blank trim_space trim_func
is_blank-every s = is_empty-trim_right is_space (trim_left is_space s) ∙ every-trim_left is_space s

-- a text is not blank if its first part is not
pub is_blank-append : (s t : Text) → is_blank s ≡ false → is_blank (s ++ t) ≡ false
is_blank-append s t h =
    ground (arith, is_blank-every s, is_blank-every (s ++ t), every-append is_space s t)

pub is_blank-join :
    (sep x : Text) (xs : List Text) → is_blank x ≡ false → is_blank (join sep (x ∷ xs)) ≡ false
unfolding join
is_blank-join sep x [] h = h
is_blank-join sep x (y ∷ xs) h = is_blank-append x (sep ++ join sep (y ∷ xs)) h
