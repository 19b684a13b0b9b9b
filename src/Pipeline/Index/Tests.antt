-- ===== src/Pipeline/Index/Tests.antt =====
-- The theorems at a session event and an access event.
use semantic_intelligence_la.Contracts.Sessions
use semantic_intelligence_la.Contracts.Access
use semantic_intelligence_la.Contracts.Retrieval.{Document, Hit}
use semantic_intelligence_la.Storage.JsonLines.{background, too_long, line_bytes}
use semantic_intelligence_la.RetrievalStore.{MemoryStore, memory_append, memory_search}
use semantic_intelligence_la.Pipeline.Index.Found.{
  network_query, is_hit_of, build_session_document-found,
}
use semantic_intelligence_la.SessionStore.Tests as SessionTests
use semantic_intelligence_la.AccessStore.Tests as AccessTests
use semantic_intelligence_la.Pipeline.Index.{Decoders, Counts, index_lines}
use semantic_intelligence_la.Pipeline.Index.Documents.{build_session_document}
use semantic_intelligence_la.Pipeline.Index.Terms.{IsLatin}
use semantic_intelligence_la.Pipeline.Index.Completion.{
  session, IsEvent, append_document, index_lines-completes,
}
use semantic_intelligence_la.Base.{
  length, any, List, Text, codes, ascii, trim_space, is_blank, ok, ◌+◌, ◌≡◌, refl, true, some, [],
  ◌∷◌, arith,
}

ascii-IsLatin : IsLatin ascii
ascii-IsLatin = record {
  lower = λ c low high. ground arith;
  letter = λ c low high. ground arith;
  lower_space = refl;
}

early-valid : Sessions.validate SessionTests.early ≡ ok tt
unfolding Sessions.validate is_blank trim_space
early-valid = refl

late-valid : Access.validate AccessTests.late ≡ ok tt
unfolding Access.validate is_blank trim_space
late-valid = refl

build_session_document-found_example :
    (d : Document) × (build_session_document ⦃u = ascii⦄ SessionTests.early ≡ ok d)
    × ((memory_append ⦃u = ascii⦄ background [] d).1 ≡ ok tt)
    × (found : List Hit) × (memory_search ⦃u = ascii⦄ background
          (memory_append ⦃u = ascii⦄ background [] d).0
          (network_query SessionTests.early.tenant_id)
        ≡ ok found)
    × (any (is_hit_of SessionTests.early) found ≡ true)
build_session_document-found_example =
    build_session_document-found ⦃u = ascii⦄ ascii-IsLatin SessionTests.early [] early-valid

-- a decoder that knows one event of each type, and takes every line for a session event
abbrev json : Decoders
json = record {
  probe = λ line. some (codes "e", Sessions.event_type_name);
  session = λ line. some SessionTests.early;
  access = λ line. some AccessTests.late;
}

line-IsEvent : IsEvent json (codes " {} ")
line-IsEvent = record {
  fits = unfold too_long line_bytes in refl;
  full = unfold is_blank trim_space in refl;
  id = codes "e";
  type = Sessions.event_type_name;
  probed = refl;
  carries = session SessionTests.early (unfold trim_space in refl) refl early-valid;
}

abbrev nothing : Counts
nothing = record { events = 0; indexed = 0 }

index_lines-completes_example :
    (s' : MemoryStore) × (n' : Counts) × (index_lines ⦃u = ascii⦄ json
        (append_document ⦃u = ascii⦄)
        background
        0
        (codes " {} " ∷ codes " {} " ∷ [])
        []
        nothing
      ≡ ((s', n'), ok tt))
    × (n'.events ≡ nothing.events + length {A = Text} (codes " {} " ∷ codes " {} " ∷ []))
    × (n'.indexed ≡ nothing.indexed + length {A = Text} (codes " {} " ∷ codes " {} " ∷ []))
index_lines-completes_example =
    index_lines-completes ⦃u = ascii⦄ ascii-IsLatin json 0 (codes " {} " ∷ codes " {} " ∷ []) []
      nothing (line-IsEvent, (line-IsEvent, tt))
