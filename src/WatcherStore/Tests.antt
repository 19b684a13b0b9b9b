-- ===== src/WatcherStore/Tests.antt =====
-- The agreement of the two stores on two versions of one state and a refused one.
use native.Mathlib.Decide.{ℕ_discrete}
use semantic_intelligence_la.Base.Times.{Time}
use semantic_intelligence_la.Base.Dict.{lookup, insert}
use semantic_intelligence_la.Storage.JsonLines.{background, Codec, sound_disk, too_long, line_bytes}
use semantic_intelligence_la.Storage.TableCodec.{table_codec, encode_first, encode_second}
use semantic_intelligence_la.Storage.Replay.{accepted, Fits}
use semantic_intelligence_la.WatcherStore.{WatcherState, accept, memory_get, file_get}
use semantic_intelligence_la.WatcherStore.Refinement.{
  memory_all, file_all, history, file_get-memory_get_of_states,
}
use semantic_intelligence_la.Base.{
  All, Text, codes, eq_text, is_blank, ◌≡◌, refl, ◌≢◌, none, [], ◌∷◌, arith,
}

abbrev state_at : Time → Text → WatcherState
state_at at event = record {
  key = codes "k";
  watcher_name = codes "w";
  tenant_id = codes "t";
  subject_id = codes "ann";
  last_event_id = event;
  last_occurred_at = none;
  last_run_id = codes "r";
  updated_at = at;
}

abbrev early : WatcherState
early = state_at 5 (codes "e1")

abbrev late : WatcherState
late = state_at 9 (codes "e2")

-- refused: it names no event
abbrev unnamed : WatcherState
unnamed = state_at 7 []

WatcherState-discrete : Discrete WatcherState
WatcherState-discrete = hlevel ℕ_discrete

late≢early : late ≢ early
late≢early e = cc e

abbrev codec : Codec WatcherState
codec =
    table_codec WatcherState-discrete early late (codes "1") (codes "2") (unfold eq_text in refl)

Fits-both : All (Fits codec) (history (early ∷ unnamed ∷ late ∷ []))
unfolding accepted accept is_blank
Fits-both = (
  (
    codes "1",
    encode_first WatcherState-discrete early late _ _,
    (unfold too_long line_bytes in refl),
  ),
  (
    (
      codes "2",
      encode_second WatcherState-discrete early late _ _ late≢early,
      (unfold too_long line_bytes in refl),
    ),
    tt,
  ),
)

file_get-memory_get_of_states_example :
    file_get codec background sound_disk
      (file_all codec none (early ∷ unnamed ∷ late ∷ []))
      (codes "k")
    ≡ memory_get background (memory_all [] (early ∷ unnamed ∷ late ∷ [])) (codes "k")
unfolding accepted accept lookup insert is_blank eq_text
file_get-memory_get_of_states_example =
    file_get-memory_get_of_states codec (early ∷ unnamed ∷ late ∷ []) (codes "k") Fits-both
      (tt, (omega arith, tt))
