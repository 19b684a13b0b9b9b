-- ===== src/Harness/Plan/Laws.antt =====
-- Every plan has a phase, repeats none, and asks for no service that is missing.
use semantic_intelligence_la.Agents.{RunRequest}
use semantic_intelligence_la.Harness.Plan.{
  Phase, retrieve, access, sessions, same_phase, is_available, ordered_from,
  ordered_available_phases, wanted_phases, or_retrieve, build_investigation_plan,
  has_structured_lookup_selectors,
}
use semantic_intelligence_la.Harness.Goals.{normalized_goal}
use semantic_intelligence_la.Base.{
  Bool-cases, any, All, All-append, CharTables, ◌≡◌, refl, ◌≢◌, ◌↔◌, inl, inr, Bool, true, false,
  List, [], ◌∷◌, ◌++◌, arith,
}

abbrev pub IsNew : Phase → List Phase → Type 0
IsNew p = All (λ q. p ≢ q)

abbrev pub IsDistinct : List Phase → Type 0
IsDistinct [] = Unit
IsDistinct (p ∷ ps) = IsNew p ps × IsDistinct ps

-- a plan for the services at hand
pub record IsPlan (a s : Bool) (plan : List Phase) : Type 0 where
  pub some_phase : plan ≢ []
  pub distinct : IsDistinct plan
  pub available : All (λ p. is_available a s p ≡ true) plan

same_phase_iff : (p q : Phase) → (same_phase p q ≡ true) ↔ (p ≡ q)
same_phase_iff retrieve retrieve = ground arith
same_phase_iff retrieve access = ground arith
same_phase_iff retrieve sessions = ground arith
same_phase_iff access retrieve = ground arith
same_phase_iff access access = ground arith
same_phase_iff access sessions = ground arith
same_phase_iff sessions retrieve = ground arith
same_phase_iff sessions access = ground arith
same_phase_iff sessions sessions = ground arith

-- a phase that the loop has not seen can be added at the end
IsDistinct-append :
    (ps : List Phase) (p : Phase)
    → IsDistinct ps
    → any (λ seen. same_phase seen p) ps ≡ false
    → IsDistinct (ps ++ p ∷ [])
IsDistinct-append [] p h new = (tt, tt)
IsDistinct-append (q ∷ ps) p (apart, h) new = (
  All-append _ ps (p ∷ []) apart (ground (arith, same_phase_iff q p), tt),
  IsDistinct-append ps p h (ground arith),
)

module _ (a s : Bool) where
  ordered_from-IsDistinct :
      (ordered phases : List Phase)
      → IsDistinct ordered
      → IsDistinct (ordered_from a s ordered phases)
  unfolding ordered_from
  ordered_from-IsDistinct ordered [] h = h
  ordered_from-IsDistinct ordered (p ∷ ps) h =
      elim (Bool-cases (any (λ seen. same_phase seen p) ordered)) [
        | inl seen ↦ rw seen (ordered_from-IsDistinct ordered ps h)
        | inr new ↦ elim (Bool-cases (is_available a s p)) [
          | inl here ↦
              rw (new, here)
                (ordered_from-IsDistinct (ordered ++ p ∷ []) ps (IsDistinct-append ordered p h new))
          | inr missing ↦ rw (new, missing) (ordered_from-IsDistinct ordered ps h)
        ]
      ]

  ordered_from-available :
      (ordered phases : List Phase)
      → All (λ p. is_available a s p ≡ true) ordered
      → All (λ p. is_available a s p ≡ true) (ordered_from a s ordered phases)
  unfolding ordered_from
  ordered_from-available ordered [] h = h
  ordered_from-available ordered (p ∷ ps) h =
      elim (Bool-cases (any (λ seen. same_phase seen p) ordered)) [
        | inl seen ↦ rw seen (ordered_from-available ordered ps h)
        | inr new ↦ elim (Bool-cases (is_available a s p)) [
          | inl here ↦
              rw (new, here)
                (ordered_from-available (ordered ++ p ∷ []) ps
                  (All-append _ ordered (p ∷ []) h (here, tt)))
          | inr missing ↦ rw (new, missing) (ordered_from-available ordered ps h)
        ]
      ]

  or_retrieve-IsPlan :
      (ps : List Phase)
      → IsDistinct ps
      → All (λ p. is_available a s p ≡ true) ps
      → IsPlan a s (or_retrieve ps)
  or_retrieve-IsPlan [] h k = record {
    some_phase = λ e. cc;
    distinct = (tt, tt);
    available = (refl, tt);
  }
  or_retrieve-IsPlan (p ∷ ps) h k = record { some_phase = λ e. cc; distinct = h; available = k }

-- The plan of every request has at least one phase, no phase twice, and no access or sessions
-- phase where that service is missing.
pub build_investigation_plan-IsPlan :
    ⦃u : CharTables⦄
    → (request : RunRequest) (a s : Bool) → IsPlan a s (build_investigation_plan request a s)
unfolding build_investigation_plan
build_investigation_plan-IsPlan request a s =
    let wanted : List Phase =
      wanted_phases (normalized_goal request.goal)
        (has_structured_lookup_selectors request.inputs) in
    or_retrieve-IsPlan a s (ordered_available_phases a s wanted)
      (ordered_from-IsDistinct a s [] wanted tt) (ordered_from-available a s [] wanted tt)
