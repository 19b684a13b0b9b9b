-- ===== src/Storage/TableCodec.antt =====
-- A JSON codec that knows two values, for tests and examples.
use semantic_intelligence_la.Storage.JsonLines.{Codec, line_bytes, too_long}
use semantic_intelligence_la.Base.{
  if◌then◌else◌, Text, codes, eq_text, eq_text_refl, external, Result, ok, err, ℕ, zero, suc, ◌≡◌,
  refl, sym, ap, ◌≢◌, true, false, Option, none, some, [], ◌∷◌, arith,
}

module _ {A : Type 0} (dec : Discrete A) (a b : A) (line_a line_b : Text) where
  pub encode : A → Result Text
  encode x = elim (dec x a) [
    | yes _ ↦ ok line_a
    | no _ ↦ elim (dec x b) [ yes _ ↦ ok line_b | no _ ↦ err (external 9) ]
  ]

  unfoldable pub decode : Text → Option A
  decode line = if eq_text line line_a then some a else if eq_text line line_b then some b else none

  pub decode-encode :
      eq_text line_b line_a ≡ false
      → (x : A) (line : Text) → encode x ≡ ok line
      → decode line ≡ some x
  unfolding encode decode
  decode-encode apart x line = go (dec x a) (dec x b)
    where
      go :
          (da : Dec (x ≡ a)) (db : Dec (x ≡ b))
          → elim da [
            | yes _ ↦ ok line_a
            | no _ ↦ elim db [ yes _ ↦ ok line_b | no _ ↦ err (external 9) ]
          ]
            ≡ ok line
          → decode line ≡ some x
      go (yes p) db h =
          let e : line_a ≡ line = ground arith in rw (← e, eq_text_refl line_a) (ap some (sym p))
      go (no _) (yes p) h =
          let e : line_b ≡ line = ground arith in
          rw (← e, apart, eq_text_refl line_b) (ap some (sym p))
      go (no _) (no _) h = cc

  abbrev pub table_codec : eq_text line_b line_a ≡ false → Codec A
  table_codec apart = record {
    encode = encode;
    decode = decode;
    decode-encode = decode-encode apart;
  }

  pub encode_first : encode a ≡ ok line_a
  unfolding encode
  encode_first =
      elim (dec a a)
        as (λ d.
          elim d [
            | yes _ ↦ ok line_a
            | no _ ↦ elim (dec a b) [ yes _ ↦ ok line_b | no _ ↦ err (external 9) ]
          ]
          ≡ ok line_a) [ yes _ ↦ refl | no h ↦ absurd (h refl) ]

  pub encode_second : b ≢ a → encode b ≡ ok line_b
  unfolding encode
  encode_second differ = go (dec b a) (dec b b)
    where
      go :
          (da : Dec (b ≡ a)) (db : Dec (b ≡ b))
          → elim da [
            | yes _ ↦ ok line_a
            | no _ ↦ elim db [ yes _ ↦ ok line_b | no _ ↦ err (external 9) ]
          ]
            ≡ ok line_b
      go (yes p) db = absurd (differ p)
      go (no _) (yes _) = refl
      go (no _) (no h) = absurd (h refl)

replicate : ℕ → ℕ → Text
replicate zero c = []
replicate (suc n) c = c ∷ replicate n c

line_bytes-replicate : (n : ℕ) → line_bytes (replicate n 65) ≡ n
unfolding line_bytes replicate
line_bytes-replicate zero = refl
line_bytes-replicate (suc n) = omega (arith, line_bytes-replicate n)

-- a line of one mebibyte
pub big_line : Text
big_line = 65 ∷ replicate 1048575 65

pub too_long-big_line : too_long big_line ≡ true
unfolding too_long line_bytes big_line
too_long-big_line = rw (line_bytes-replicate 1048575)

pub big_line_apart : eq_text big_line (codes "1") ≡ false
unfolding big_line eq_text
big_line_apart = refl
