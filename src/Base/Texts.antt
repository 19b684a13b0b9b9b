-- ===== src/Base/Texts.antt =====
-- Go strings as lists of code points, and the functions of `strings` that the program calls.
-- White space is that of `unicode.IsSpace`; the tables of `unicode` for letters, digits and
-- cases are the fields of `CharTables`, and every theorem holds whatever they are.
use Prim.Native.Nat.{ℕ, ◌+◌, ◌-◌}
use Prim.Native.Char.{code}
use Prim.Native.String.{String}
use mathlib.Core.Path.{◌≡◌, refl}
use mathlib.Core.Logic.{◌↔◌}
use mathlib.Core.Bool.{Bool, true, false, ◌&&◌, ◌||◌}
use mathlib.Core.List.{List, [], ◌∷◌, ◌++◌, map}
use native.Mathlib.Omega.{arith}
use semantic_intelligence_la.Base.Bools.{leb, ◌==◌, if◌then◌else◌}
use semantic_intelligence_la.Base.Lists.{is_empty}

abbrev pub Text : Type 0
Text = List ℕ

-- the code points of a literal
abbrev pub codes : String → Text
codes String.[] = []
codes (String.◌∷◌ c s) = code c ∷ codes s

pub record CharTables : Type 0 where
  pub lower : ℕ → ℕ  -- unicode.ToLower
  pub fold : ℕ → ℕ  -- the least member of the orbit of unicode.SimpleFold
  pub is_letter : ℕ → Bool
  pub is_digit : ℕ → Bool

-- the tables on ASCII, for tests
abbrev ascii_lower : ℕ → ℕ
ascii_lower c = if leb 65 c && leb c 90 then c + 32 else c

abbrev ascii_upper : ℕ → ℕ
ascii_upper c = if leb 97 c && leb c 122 then c - 32 else c

abbrev ascii_letter : ℕ → Bool
ascii_letter c = (leb 65 c && leb c 90) || (leb 97 c && leb c 122)

abbrev ascii_digit : ℕ → Bool
ascii_digit c = leb 48 c && leb c 57

abbrev pub ascii : CharTables
ascii = record {
  lower = ascii_lower;
  fold = ascii_upper;
  is_letter = ascii_letter;
  is_digit = ascii_digit;
}

-- `==` on strings
unfoldable pub eq_text : Text → Text → Bool
eq_text [] [] = true
eq_text (x ∷ xs) (y ∷ ys) = x == y && eq_text xs ys
eq_text _ _ = false

-- unicode.IsSpace
unfoldable pub is_space : ℕ → Bool
is_space c =
    (leb 9 c && leb c 13)
    || c == 32
    || c == 0x85
    || c == 0xa0
    || c == 0x1680
    || (leb 0x2000 c && leb c 0x200a)
    || c == 0x2028
    || c == 0x2029
    || c == 0x202f
    || c == 0x205f
    || c == 0x3000

-- strings.TrimLeftFunc, strings.TrimRightFunc
unfoldable pub trim_left : (ℕ → Bool) → Text → Text
trim_left p [] = []
trim_left p (c ∷ s) = let rest = trim_left p s in if p c then rest else c ∷ s

unfoldable pub trim_right : (ℕ → Bool) → Text → Text
trim_right p [] = []
trim_right p (c ∷ s) = let rest = trim_right p s in if p c && is_empty rest then [] else c ∷ rest

unfoldable pub trim_func : (ℕ → Bool) → Text → Text
unfolding trim_left trim_right
trim_func p s = trim_right p (trim_left p s)

unfoldable pub trim_space : Text → Text
unfolding trim_func is_space
trim_space = trim_func is_space

-- strings.TrimSpace(s) == ""
unfoldable pub is_blank : Text → Bool
unfolding trim_space
is_blank s = is_empty (trim_space s)

-- strings.HasPrefix
unfoldable pub has_prefix : Text → Text → Bool
has_prefix s [] = true
has_prefix [] (p ∷ ps) = false
has_prefix (c ∷ s) (p ∷ ps) = c == p && has_prefix s ps

-- strings.Contains
unfoldable pub contains : Text → Text → Bool
unfolding has_prefix
contains [] needle = is_empty needle
contains (c ∷ s) needle = has_prefix (c ∷ s) needle || contains s needle

-- strings.Join
unfoldable pub join : Text → List Text → Text
join sep [] = []
join sep (x ∷ []) = x
join sep (x ∷ y ∷ xs) = x ++ (sep ++ join sep (y ∷ xs))

module _ ⦃u : CharTables⦄ where
  unfoldable pub to_lower : Text → Text
  to_lower = map u.lower

  -- strings.EqualFold
  unfoldable pub equal_fold : Text → Text → Bool
  equal_fold s t = eq_text (map u.fold s) (map u.fold t)

pub eq_text_iff : (a b : Text) → (eq_text a b ≡ true) ↔ (a ≡ b)
unfolding eq_text
eq_text_iff [] [] = ground arith
eq_text_iff (x ∷ xs) [] = ground arith
eq_text_iff [] (y ∷ ys) = ground arith
eq_text_iff (x ∷ xs) (y ∷ ys) = ground (arith, eq_text_iff xs ys)

pub eq_text_refl : (a : Text) → eq_text a a ≡ true
eq_text_refl a = (eq_text_iff a a).1 refl
