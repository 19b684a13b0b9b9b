-- ===== src/Storage/EventLog.antt =====
-- A log of events behind the methods that the event stores share: events are checked and appended,
-- and a search scans them. A client gives the check of an event, and for a search the test, the
-- order and the limit; the laws say that the file answers as the memory does.
use mathlib.Core.List.{append-nil, append_assoc}
use semantic_intelligence_la.Base.Times.{ℤ}
use semantic_intelligence_la.Storage.JsonLines.{
  background, Codec, File, contents, on_ok, err_decode, of_option, scan, scan-fold_left, fold_left,
  Reads,
}
use semantic_intelligence_la.Storage.Replay.{accepted, Fits, put, puts-Reads}
use semantic_intelligence_la.Storage.Search.{truncate, truncate-nil, search_list}
use semantic_intelligence_la.Base.{
  if◌then◌else◌, Bool-cases, All, filter_by, Text, Result, ok, err, ◌>>=◌, ◌>>◌, Result-cases,
  sort_by, ◌≡◌, refl, sym, ap, ◌∙◌, inl, inr, Bool, none, some, List, [], ◌∷◌, ◌++◌, arith,
}

module _ {E : Type 0} (validate : E → Result (Unit {0})) where
  -- an event that passes the check is kept as it is
  abbrev pub checked : E → Result E
  checked event = do validate event; ok event

  abbrev pub append_to : List E → E → List E
  append_to store event = (on_ok store (checked event) (λ e. (store ++ e ∷ [], ok tt))).0

  pub appends-accepted :
      (store events : List E) → fold_left append_to store events ≡ store ++ accepted checked events
  unfolding accepted
  appends-accepted store [] = sym (append-nil store)
  appends-accepted store (e ∷ rest) = elim (Result-cases (checked e)) [
    | inl (a, p) ↦
        rw (p, append_to) (appends-accepted (store ++ a ∷ []) rest ∙ append_assoc store (a ∷ []) _)
    | inr (x, p) ↦ rw (p, append_to) (appends-accepted store rest)
  ]

  pub checked-eq-ok : (e a : E) → checked e ≡ ok a → (validate e ≡ ok tt) × (e ≡ a)
  checked-eq-ok e a h = go (validate e) refl h
    where
      go :
          (v : Result (Unit {0}))
          → validate e ≡ v
          → (v >>= λ _. ok e) ≡ ok a
          → (validate e ≡ ok tt) × (e ≡ a)
      go (ok u) p q = (p, ground arith)
      go (err x) p q = cc

  module _ (codec : Codec E) where
    -- json.Unmarshal and Validate on one line
    abbrev pub read_line : Text → Result E
    read_line line = do event ← of_option err_decode (codec.decode line); validate event; ok event

    read_line-encode :
        (e a : E) (line : Text)
        → checked e ≡ ok a
        → codec.encode a ≡ ok line
        → read_line line ≡ ok a
    read_line-encode e a line h encoded =
        let (valid, same) = checked-eq-ok e a h in
        rw (codec.decode-encode a line encoded, ← same, valid) refl

    pub file-Reads :
        (events : List E)
        → All (Fits codec) (accepted checked events)
        → Reads read_line
            (contents (fold_left (put codec checked) none events))
            (accepted checked events)
    file-Reads events fits =
        puts-Reads codec checked read_line read_line-encode none [] events tt fits

module _ {E : Type 0} (matches : E → Bool) (newer : E → E → Bool) (limit : ℤ) where
  abbrev pub collect_into : List E → E → List E
  collect_into results event = if matches event then results ++ event ∷ [] else results

  collect_into-filter_by :
      (results events : List E)
      → fold_left collect_into results events ≡ results ++ filter_by matches events
  unfolding filter_by
  collect_into-filter_by results [] = sym (append-nil results)
  collect_into-filter_by results (e ∷ rest) = elim (Bool-cases (matches e)) [
    | inl hit ↦
        rw (hit, collect_into)
          (collect_into-filter_by (results ++ e ∷ []) rest ∙ append_assoc results (e ∷ []) _)
    | inr miss ↦ rw (miss, collect_into) (collect_into-filter_by results rest)
  ]

  abbrev pub search_lines : (Text → Result E) → File → Result (List E)
  search_lines read none = ok []
  search_lines read (some lines) = do
    results ← scan background read collect_into 1 [] lines
    ok (truncate limit (sort_by newer results))

  pub search_lines-Reads :
      (read : Text → Result E) (file : File) (held : List E)
      → Reads read (contents file) held
      → search_lines read file ≡ ok (search_list matches newer limit held)
  unfolding search_list
  search_lines-Reads read none [] h = ap ok (sym (truncate-nil limit))
  search_lines-Reads read none (e ∷ rest) h = absurd h
  search_lines-Reads read (some lines) held h =
      rw (scan-fold_left read collect_into 1 [] lines held h, collect_into-filter_by [] held) refl
