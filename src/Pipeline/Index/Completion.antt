-- ===== src/Pipeline/Index/Completion.antt =====
-- A run of the index service over valid events returns no error.
use semantic_intelligence_la.Base.Dict.{insert}
use semantic_intelligence_la.Contracts.Sessions
use semantic_intelligence_la.Contracts.Access
use semantic_intelligence_la.Contracts.Retrieval.{Document}
use semantic_intelligence_la.Storage.JsonLines.{background, too_long}
use semantic_intelligence_la.RetrievalStore.{MemoryStore, accept, normalize_document, memory_append}
use semantic_intelligence_la.Pipeline.Index.{
  Decoders, Counts, build_by_type, build_document, index_line, index_lines,
}
use semantic_intelligence_la.Pipeline.Index.Documents.{
  build_session_document, build_access_document,
}
use semantic_intelligence_la.Pipeline.Index.Terms.{IsLatin}
use semantic_intelligence_la.Pipeline.Index.Laws.{
  build_session_document-total, build_access_document-total,
}
use semantic_intelligence_la.Base.{
  length, All, Text, CharTables, eq_text, trim_space, is_blank, eq_text_refl, Result, ok, ◌>>◌, ℕ,
  suc, ◌+◌, ◌≡◌, refl, ap, ◌∙◌, false, none, some, List, [], ◌∷◌, arith,
}

-- the text is the JSON of a valid event of the type
pub data Carries (json : Decoders) (text type : Text) : Type 0 where
  session :
      (e : Sessions.Event)
      → trim_space type ≡ Sessions.event_type_name
      → json.session text ≡ some e
      → Sessions.validate e ≡ ok tt
      → Carries json text type
  access :
      (e : Access.Event)
      → trim_space type ≡ Access.event_type_name
      → json.access text ≡ some e
      → Access.validate e ≡ ok tt
      → Carries json text type

-- a line that holds a valid event and fits the scanner's buffer
pub record IsEvent (json : Decoders) (line : Text) : Type 0 where
  pub fits : too_long line ≡ false
  pub full : is_blank line ≡ false
  pub id : Text
  pub type : Text
  pub probed : json.probe (trim_space line) ≡ some (id, type)
  pub carries : Carries json (trim_space line) type

-- the store's Append
abbrev pub append_document :
    ⦃u : CharTables⦄ → Document → MemoryStore → MemoryStore × Result (Unit {0})
append_document d s = memory_append background s d

module _ ⦃u : CharTables⦄ (latin : IsLatin u) (json : Decoders) where
  abbrev Built : Result Document → Type 0
  Built m = (d : Document) × (m ≡ ok d) × (accept background d ≡ ok (normalize_document d))

  build_by_type-Built :
      (text type : Text) → Carries json text type → Built (build_by_type json type text)
  unfolding build_by_type
  build_by_type-Built text type (session e named decoded valid) =
      let made = build_session_document-total latin e valid in
      (
        made.0,
        (rw (named, eq_text_refl Sessions.event_type_name, decoded)
            (ap (λ v. v >> build_session_document e) valid ∙ made.1)),
        made.7,
      )
  build_by_type-Built text type (access e named decoded valid) =
      let made = build_access_document-total latin e valid in
      let other : eq_text Access.event_type_name Sessions.event_type_name ≡ false =
        unfold eq_text in refl in
      (
        made.0,
        (rw (named, other, eq_text_refl Access.event_type_name, decoded)
            (ap (λ v. v >> build_access_document e) valid ∙ made.1)),
        made.7,
      )

  one_more : Counts → Counts
  one_more n = record { events = n.events + 1; indexed = n.indexed + 1 }

  index_line_ok :
      (line : Text) (s : MemoryStore) (n : Counts)
      → IsEvent json line
      → (s' : MemoryStore) × (index_line json append_document none line s n
          ≡ ((s', one_more n), ok tt))
  unfolding index_line build_document memory_append one_more
  index_line_ok line s n h =
      let (d, built, taken) = build_by_type-Built (trim_space line) h.type h.carries in
      let d' : Document = normalize_document d in
      (insert d'.document_id d' s, rw (h.fits, h.full, h.probed, built, taken) refl)

  -- A run on a memory store and on a context that does not end, over lines that each hold a valid
  -- event and fit the scanner's buffer, returns no error, and counts every line once as read and
  -- once as indexed. The tables of `unicode` are those of Unicode on the Latin small letters and
  -- the space.
  pub index_lines-completes :
      (i : ℕ) (lines : List Text) (s : MemoryStore) (n : Counts)
      → All (IsEvent json) lines
      → (s' : MemoryStore) × (n' : Counts) × (index_lines json append_document background i lines s
            n
          ≡ ((s', n'), ok tt))
        × (n'.events ≡ n.events + length lines)
        × (n'.indexed ≡ n.indexed + length lines)
  unfolding index_lines one_more
  index_lines-completes i [] s n h = (s, n, refl, omega arith, omega arith)
  index_lines-completes i (line ∷ lines) s n (h, hs) =
      let (s1, one) = index_line_ok line s n h in
      let (s', n', run, read, indexed) = index_lines-completes (suc i) lines s1 (one_more n) hs in
      (s', n', rw one run, omega (arith, read), omega (arith, indexed))
