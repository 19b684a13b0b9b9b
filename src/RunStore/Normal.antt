-- ===== src/RunStore/Normal.antt =====
-- Normal forms of records: normalising and copying again changes nothing, and keeps the verdict of
-- the check.
use mathlib.Core.Path.{ap₂}
use semantic_intelligence_la.Agents.{Run, Step, EvidenceRef}
use semantic_intelligence_la.RunStore.Records.{
  Record, less_evidence, clone_evidence, clone_step, clone_record, normalize_run, normalize_step,
  normalize_record,
}
use semantic_intelligence_la.Base.{
  IsStrictWeak, sort_by, sort_by-IsSorted, sort_by_of_IsSorted, less_text-IsStrictWeak,
  trim_space_idempotent, ◌≡◌, refl, true, false, List, [], ◌∷◌, map, arith,
}

less_evidence_asym : (x y : EvidenceRef) → less_evidence x y ≡ true → less_evidence y x ≡ false
unfolding less_evidence
less_evidence_asym x y h = ground (arith, less_text-IsStrictWeak.asym x.id y.id)

less_evidence_neg_trans :
    (x y z : EvidenceRef)
    → less_evidence y x ≡ false
    → less_evidence z y ≡ false
    → less_evidence z x ≡ false
unfolding less_evidence
less_evidence_neg_trans x y z h k = ground (arith, less_text-IsStrictWeak.neg_trans x.id y.id z.id)

pub less_evidence-IsStrictWeak : IsStrictWeak less_evidence
less_evidence-IsStrictWeak = record {
  asym = less_evidence_asym;
  neg_trans = less_evidence_neg_trans;
}

clone_evidence_idempotent :
    (l : List EvidenceRef) → clone_evidence (clone_evidence l) ≡ clone_evidence l
unfolding clone_evidence
clone_evidence_idempotent l =
    sort_by_of_IsSorted less_evidence (sort_by less_evidence l)
      (sort_by-IsSorted less_evidence less_evidence-IsStrictWeak l)

normalize_step_idempotent : (s : Step) → normalize_step (normalize_step s) ≡ normalize_step s
unfolding normalize_step
normalize_step_idempotent s = simp (trim_space_idempotent, clone_evidence_idempotent)

clone_step-normalize_step : (s : Step) → clone_step (normalize_step s) ≡ normalize_step s
unfolding clone_step normalize_step
clone_step-normalize_step s = simp clone_evidence_idempotent

map_absorb {ℓ} :
    {A : Type ℓ} (f g : A → A)
    → ((a : A) → f (g a) ≡ g a)
    → (l : List A) → map f (map g l) ≡ map g l
map_absorb f g h [] = refl
map_absorb f g h (a ∷ l) = ap₂ ◌∷◌ (h a) (map_absorb f g h l)

normalize_run_idempotent : (r : Run) → normalize_run (normalize_run r) ≡ normalize_run r
unfolding normalize_run
normalize_run_idempotent r = simp trim_space_idempotent

pub normalize_record_idempotent :
    (r : Record) → normalize_record (normalize_record r) ≡ normalize_record r
unfolding normalize_record
normalize_record_idempotent r = cc (
  normalize_run_idempotent r.run,
  map_absorb normalize_step normalize_step normalize_step_idempotent r.steps,
)

pub clone_record-normalize_record :
    (r : Record) → clone_record (normalize_record r) ≡ normalize_record r
unfolding clone_record normalize_record
clone_record-normalize_record r =
    cc (map_absorb clone_step normalize_step clone_step-normalize_step r.steps)
