-- ===== src/Storage/JsonLines.antt =====
-- A file of JSON lines as the file stores write and scan it (FileStore and
-- FileWatcherStateStore: the bodies of Upsert, Append, Get and Search).
-- encoding/json is a parameter, with its round trip; a file is the list of its lines.
use semantic_intelligence_la.Base.{
  ltb, leb, if◌then◌else◌, Text, Error, external, Result, ok, err, ◌>>=◌, ◌>>◌, check_context, ℕ,
  suc, ◌+◌, ◌≡◌, refl, Bool, true, false, Option, none, some, List, [], ◌∷◌, ◌++◌,
}

-- the answer of the n-th call of ctx.Err() during one operation; a nil context never ends
abbrev pub Context : Type 0
Context = ℕ → Option Error

abbrev pub background : Context
background _ = none

-- json.Encoder.Encode and json.Unmarshal for one type. Encode writes one line.
pub record Codec {ℓ} (A : Type ℓ) : Type ℓ where
  pub encode : A → Result Text
  pub decode : Text → Option A
  pub decode-encode : (a : A) (line : Text) → encode a ≡ ok line → decode line ≡ some a

-- the bytes of a code point and of a line in UTF-8
rune_bytes : ℕ → ℕ
rune_bytes c = if ltb c 0x80 then 1 else if ltb c 0x800 then 2 else if ltb c 0x10000 then 3 else 4

unfoldable pub line_bytes : Text → ℕ
unfolding rune_bytes
line_bytes [] = 0
line_bytes (c ∷ s) = rune_bytes c + line_bytes s

-- scanner.Buffer(buffer, 1024*1024): the line and its newline must fit
abbrev pub max_line : ℕ
max_line = 1048576

unfoldable pub too_long : Text → Bool
too_long line = leb max_line (line_bytes line)

-- the error of bufio.ErrTooLong, and of a line that json.Unmarshal refuses
abbrev pub err_too_long : Error
err_too_long = external 1

abbrev pub err_decode : Error
err_decode = external 2

abbrev pub of_option {ℓ} : {A : Type ℓ} → Error → Option A → Result A
of_option e none = err e
of_option e (some a) = ok a

pub of_option-eq-ok {ℓ} :
    {A : Type ℓ} (e : Error) (o : Option A) (a : A) → of_option e o ≡ ok a → o ≡ some a
of_option-eq-ok e none a h = cc
of_option-eq-ok e (some b) a h = cc

-- `for scanner.Scan() { … }` followed by the test of scanner.Err(): each line is decoded by
-- `read`, and `step` takes it into the state
module _ {ℓ κ} {A : Type ℓ} {S : Type κ} (ctx : Context) (read : Text → Result A)
    (step : S → A → S) where
  unfoldable pub scan : ℕ → S → List Text → Result S
  scan i s [] = ok s
  scan i s (line ∷ lines) =
      if too_long line
      then err err_too_long
      else (do check_context (ctx i); a ← read line; scan (suc i) (step s a) lines)

abbrev pub fold_left {ℓ κ} : {A : Type ℓ} {S : Type κ} → (S → A → S) → S → List A → S
fold_left f s [] = s
fold_left f s (a ∷ items) = fold_left f (f s a) items

-- every line fits and reads as the item beside it
abbrev pub Reads : {A : Type 0} → (Text → Result A) → List Text → List A → Type 0
Reads read [] [] = Unit
Reads {A} read (line ∷ lines) (a ∷ items) =
    (too_long line ≡ false) × (read line ≡ ok a) × Reads read lines items
Reads read _ _ = ⊥

module _ {κ} {A : Type 0} {S : Type κ} (read : Text → Result A) (step : S → A → S) where
  pub scan-fold_left :
      (i : ℕ) (s : S) (lines : List Text) (items : List A)
      → Reads read lines items
      → scan background read step i s lines ≡ ok (fold_left step s items)
  unfolding scan
  scan-fold_left i s [] [] h = refl
  scan-fold_left i s (line ∷ lines) (a ∷ items) (fits, e, h) =
      rw (fits, e) (scan-fold_left (suc i) (step s a) lines items h)
  scan-fold_left i s [] (a ∷ items) h = absurd h
  scan-fold_left i s (line ∷ lines) [] h = absurd h

  -- one line that is too long fails the scan, whatever stands before and after it
  pub scan-too_long :
      (i : ℕ) (s : S) (lines rest : List Text) (items : List A) (line : Text)
      → Reads read lines items
      → too_long line ≡ true
      → scan background read step i s (lines ++ line ∷ rest) ≡ err err_too_long
  unfolding scan
  scan-too_long i s [] rest [] line h long = rw long
  scan-too_long i s (l ∷ lines) rest (a ∷ items) line (fits, e, h) long =
      rw (fits, e) (scan-too_long (suc i) (step s a) lines rest items line h long)
  scan-too_long i s [] rest (a ∷ items) line h long = absurd h
  scan-too_long i s (l ∷ lines) rest [] line h long = absurd h

pub Reads-append :
    {A : Type 0} (read : Text → Result A) (lines : List Text) (items : List A) (line : Text) (a : A)
    → Reads read lines items
    → too_long line ≡ false
    → read line ≡ ok a
    → Reads read (lines ++ line ∷ []) (items ++ a ∷ [])
Reads-append read [] [] line a h fits e = (fits, e, tt)
Reads-append read (l ∷ lines) (b ∷ items) line a (f, r, h) fits e =
    (f, r, Reads-append read lines items line a h fits e)
Reads-append read [] (b ∷ items) line a h fits e = absurd h
Reads-append read (l ∷ lines) [] line a h fits e = absurd h

-- what the operating system answers during one operation; a failed write leaves no part of a line
pub record Disk : Type 0 where
  pub mkdir : Option Error
  pub open_file : Option Error
  pub write_file : Option Error

abbrev pub sound_disk : Disk
sound_disk = record { mkdir = none; open_file = none; write_file = none }

-- `none` is a file that does not exist
abbrev pub File : Type 0
File = Option (List Text)

abbrev pub contents : File → List Text
contents none = []
contents (some lines) = lines

abbrev write_line : Option Error → File → Result Text → File × Result (Unit {0})
write_line fault file (err e) = (some (contents file), err e)
write_line (some e) file (ok line) = (some (contents file), err e)
write_line none file (ok line) = (some (contents file ++ line ∷ []), ok tt)

-- os.MkdirAll, os.OpenFile with O_CREATE and O_APPEND, encoder.Encode
unfoldable pub append_line : Disk → File → Result Text → File × Result (Unit {0})
append_line disk file encoded = elim disk.mkdir [
  | some e ↦ (file, err e)
  | none ↦ elim disk.open_file [
    | some e ↦ (file, err e)
    | none ↦ write_line disk.write_file file encoded
  ]
]

-- an operation that fails before it reaches the file leaves the file as it was
abbrev pub on_ok {ℓ κ} :
    {A : Type ℓ} {S : Type κ} → S → Result A → (A → S × Result (Unit {0})) → S × Result (Unit {0})
on_ok s (ok a) f = f a
on_ok s (err e) f = (s, err e)
