-- ===== src/RunStore/Tests.antt =====
-- Runs of the two stores, and the theorems at concrete inputs.
use native.Mathlib.Decide.{ℕ_discrete}
use semantic_intelligence_la.Base.Dict.{lookup, insert}
use semantic_intelligence_la.Agents.{RunStatus}
use semantic_intelligence_la.Storage.JsonLines.{
  background, Codec, sound_disk, err_too_long, too_long, line_bytes,
}
use semantic_intelligence_la.Storage.TableCodec.{
  table_codec, encode_first, encode_second, big_line, too_long-big_line, big_line_apart,
}
use semantic_intelligence_la.RunStore.Records.{Record, normalize_record, validate_record}
use semantic_intelligence_la.RunStore.Backends.{memory_get, file_get, file_upsert}
use semantic_intelligence_la.RunStore.Replay.{memory_all, file_all, history, Fits}
use semantic_intelligence_la.RunStore.Refinement.{file_get-memory_get}
use semantic_intelligence_la.RunStore.Limits.{stale_upsert, oversized_blocks_get}
use semantic_intelligence_la.Base.{
  codes, eq_text, trim_space, is_blank, ok, err, ℕ, ◌≡◌, refl, ap, ◌≢◌, inl, none, [], ◌∷◌, arith,
}

Record-discrete : Discrete Record
Record-discrete = hlevel ℕ_discrete

abbrev run_at : ℕ → Record
run_at t = record {
  run = record {
    id = codes "r1";
    tenant_id = codes "t";
    case_id = [];
    session_id = codes "s";
    goal = codes "g";
    status = RunStatus.running;
    runtime_name = [];
    planner_name = [];
    started_at = 1;
    updated_at = t;
    completed_at = none;
  };
  steps = [];
}

abbrev early : Record
early = run_at 5

abbrev late : Record
late = run_at 7

late≢early : late ≢ early
late≢early e = omega (arith, ap (λ (r : Record). r.run.updated_at) e)

abbrev codec : Codec Record
codec = table_codec Record-discrete early late (codes "1") (codes "2") (unfold eq_text in refl)

Fits-early : Fits codec early
Fits-early =
    (codes "1", encode_first Record-discrete early late _ _, (unfold too_long line_bytes in refl))

Fits-late : Fits codec late
Fits-late = (
  codes "2",
  encode_second Record-discrete early late _ _ late≢early,
  (unfold too_long line_bytes in refl),
)

normal : (t : ℕ) → normalize_record (run_at t) ≡ run_at t
unfolding normalize_record trim_space
normal t = refl

valid_early : validate_record early ≡ ok tt
unfolding validate_record is_blank
valid_early = refl

valid_late : validate_record late ≡ ok tt
unfolding validate_record is_blank
valid_late = refl

history_runs : history (early ∷ late ∷ []) ≡ early ∷ late ∷ []
unfolding history normalize_record validate_record is_blank
history_runs = refl

file_get-memory_get_example :
    file_get codec background sound_disk (file_all codec none (early ∷ late ∷ [])) (codes "r1")
    ≡ memory_get background (memory_all [] (early ∷ late ∷ [])) (codes "r1")
unfolding history normalize_record validate_record is_blank lookup insert eq_text
file_get-memory_get_example =
    file_get-memory_get codec (early ∷ late ∷ []) (codes "r1") (Fits-early, (Fits-late, tt))
      (tt, (inl (omega arith), tt))

stale_upsert_example :
    (memory_get background (memory_all [] (late ∷ early ∷ [])) (codes "r1") ≡ ok early)
    × (file_get codec background sound_disk (file_all codec none (late ∷ early ∷ [])) (codes "r1")
        ≡ ok late)
unfolding normalize_record trim_space
stale_upsert_example =
    stale_upsert codec late early valid_late valid_early Fits-late Fits-early refl
      (λ s. ground arith)

abbrev big_codec : Codec Record
big_codec = table_codec Record-discrete early late (codes "1") big_line big_line_apart

oversized_blocks_get_example :
    file_get big_codec background sound_disk
      (file_all big_codec
        (file_upsert big_codec background sound_disk (file_all big_codec none (early ∷ [])) late).0
        [])
      (codes "r1")
    ≡ err err_too_long
unfolding history normalize_record validate_record is_blank
oversized_blocks_get_example =
    oversized_blocks_get big_codec (early ∷ []) [] late big_line (codes "r1")
      (
        (
          codes "1",
          encode_first Record-discrete early late _ _,
          (unfold too_long line_bytes in refl),
        ),
        tt,
      )
      valid_late (encode_second Record-discrete early late _ _ late≢early) too_long-big_line refl
