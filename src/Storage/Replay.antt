-- ===== src/Storage/Replay.antt =====
-- What a sequence of writes leaves in a file of JSON lines: the accepted items, in order, each on
-- a line that reads back. A client gives `prepare`, which accepts an item or refuses it, and
-- `read`, which reads a line back.
use mathlib.Core.List.{append-nil, append_assoc}
use semantic_intelligence_la.Storage.JsonLines.{
  Codec, sound_disk, File, contents, append_line, on_ok, too_long, fold_left, Reads, Reads-append,
}
use semantic_intelligence_la.Base.{
  All, Text, Error, Result, ok, err, Result-cases, ◌≡◌, inl, inr, false, some, List, [], ◌∷◌, ◌++◌,
}

abbrev pub keep_ok {ℓ} : {A : Type ℓ} → Result A → List A → List A
keep_ok (ok a) rest = a ∷ rest
keep_ok (err e) rest = rest

module _ {A : Type 0} where
  -- the items that `prepare` accepts, as it leaves them
  unfoldable pub accepted : (A → Result A) → List A → List A
  accepted prepare [] = []
  accepted prepare (a ∷ rest) = let later = accepted prepare rest in keep_ok (prepare a) later

  -- an item that the file can hold: it has a JSON line that the scanner's buffer takes
  abbrev pub Fits : Codec A → A → Type 0
  Fits codec a = (line : Text) × (codec.encode a ≡ ok line) × (too_long line ≡ false)

module _ {A : Type 0} (codec : Codec A) (prepare : A → Result A) where
  abbrev pub put : File → A → File
  put file a = (on_ok file (prepare a) (λ b. append_line sound_disk file (codec.encode b))).0

  put_ok :
      (file : File) (a b : A) (line : Text)
      → prepare a ≡ ok b
      → codec.encode b ≡ ok line
      → put file a ≡ some (contents file ++ line ∷ [])
  unfolding append_line
  put_ok file a b line p e = rw (p, put, e)

  put_err : (file : File) (a : A) (e : Error) → prepare a ≡ err e → put file a ≡ file
  put_err file a e p = rw (p, put)

  module _ (read : Text → Result A)
      (reads : (a b : A) (line : Text)
        → prepare a ≡ ok b
        → codec.encode b ≡ ok line
        → read line ≡ ok b) where
    pub puts-Reads :
        (file : File) (held items : List A)
        → Reads read (contents file) held
        → All (Fits codec) (accepted prepare items)
        → Reads read (contents (fold_left put file items)) (held ++ accepted prepare items)
    unfolding accepted
    puts-Reads file held [] h fits = rw append-nil h
    puts-Reads file held (a ∷ rest) h fits = elim (Result-cases (prepare a)) [
      | inl (b, p) ↦
          let f : Fits codec b × All (Fits codec) (accepted prepare rest) = rw p at fits in
          let line : Text = f.0.0 in
          rw (p, put_ok file a b line p f.0.1)
            (rw (append_assoc held (b ∷ []) (accepted prepare rest)) at (
              puts-Reads (some (contents file ++ line ∷ [])) (held ++ b ∷ []) rest
                (Reads-append read (contents file) held line b h f.0.2 (reads a b line p f.0.1))
                f.1))
      | inr (e, p) ↦ rw (p, put_err file a e p) (puts-Reads file held rest h (rw p at fits))
    ]
