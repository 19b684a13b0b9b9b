-- ===== src/Harness/Formats.antt =====
-- What the harness takes from `time`, `strconv` and `fmt` to read and print values: the formats of
-- instants and the verbs %q, %d and %.2f. They are parameters; strconv.Atoi is written out.
use semantic_intelligence_la.Base.Times.{Time, ℤ, pos, negsuc}
use semantic_intelligence_la.Base.{
  leb, ◌==◌, if◌then◌else◌, Text, ℕ, zero, suc, ◌+◌, ◌-◌, ◌*◌, ◌&&◌, Option, none, some, [], ◌∷◌,
}

pub record Formats : Type 0 where
  pub parse_rfc3339 : Text → Option Time
  pub parse_rfc3339_nano : Text → Option Time
  pub rfc3339 : Time → Text
  pub id_time : Time → Text  -- Format("20060102T150405.000000000")
  pub quoted : Text → Text  -- %q
  pub decimal : ℕ → Text  -- %d
  pub two_places : ℕ → Text  -- %.2f of a score in halves

abbrev max_int : ℕ
max_int = 9223372036854775807

-- a run of decimal digits; `none` is any other text
digits : ℕ → Text → Option ℕ
digits n [] = some n
digits n (c ∷ s) =
    let rest = digits (n * 10 + (c - 48)) s in if leb 48 c && leb c 57 then rest else none

-- at least one digit
unsigned : Text → Option ℕ
unfolding digits
unsigned [] = none
unsigned (c ∷ s) = digits 0 (c ∷ s)

abbrev negative : ℕ → ℤ
negative zero = pos 0
negative (suc n) = negsuc n

abbrev bounded : ℕ → (ℕ → ℤ) → Option ℕ → Option ℤ
bounded most make none = none
bounded most make (some n) = if leb n most then some (make n) else none

-- strconv.Atoi
unfoldable pub atoi : Text → Option ℤ
unfolding unsigned
atoi [] = none
atoi (c ∷ s) =
    if c == 43
    then bounded max_int pos (unsigned s)
    else if c == 45
    then bounded (max_int + 1) negative (unsigned s)
    else bounded max_int pos (unsigned (c ∷ s))
