-- ===== src/Harness/Windows/Laws.antt =====
-- The window that a run looks at when the request names none.
use semantic_intelligence_la.Base.Times.{Time, is_zero, before, after}
use semantic_intelligence_la.Base.Dict.{Dict}
use semantic_intelligence_la.Storage.Filters.{in_window}
use semantic_intelligence_la.Contracts.Retrieval.{Hit}
use semantic_intelligence_la.Harness.Formats.{Formats}
use semantic_intelligence_la.Harness.Plan.{input, key_from, key_to}
use semantic_intelligence_la.Harness.Windows.{
  parse_time_input, earliest_from, latest_from, hit_window, padded, resolve_investigation_window,
}
use semantic_intelligence_la.Base.{
  if◌then◌else◌, Bool-cases, All, Text, is_blank, ok, Meets-eq-ok, ◌+◌, ◌-◌, ◌≤◌, ◌≡◌, refl, inl,
  inr, true, ◌||◌, Option, none, some, List, [], ◌∷◌, arith,
}

abbrev Within : Time → Time → Hit → Type 0
Within low high hit = (low ≤ hit.document.occurred_at) × (hit.document.occurred_at ≤ high)

earliest_from_le : (t : Time) (hits : List Hit) → earliest_from t hits ≤ t
unfolding earliest_from
earliest_from_le t [] = omega arith
earliest_from_le t (hit ∷ hits) = ground (
  arith,
  earliest_from_le (if before hit.document.occurred_at t then hit.document.occurred_at else t) hits,
)

latest_from_ge : (t : Time) (hits : List Hit) → t ≤ latest_from t hits
unfolding latest_from
latest_from_ge t [] = omega arith
latest_from_ge t (hit ∷ hits) = ground (
  arith,
  latest_from_ge (if after hit.document.occurred_at t then hit.document.occurred_at else t) hits,
)

from-Within :
    (a b : Time) (hits : List Hit) → All (Within (earliest_from a hits) (latest_from b hits)) hits
unfolding earliest_from latest_from
from-Within a b [] = tt
from-Within a b (hit ∷ hits) =
    let t = hit.document.occurred_at in
    let low = if before t a then t else a in
    let high = if after t b then t else b in
    (ground (arith, earliest_from_le low hits, latest_from_ge high hits), from-Within low high hits)

widened :
    (low high : Time) (l h : Time) (hits : List Hit)
    → l ≤ low
    → high ≤ h
    → All (Within low high) hits
    → All (λ (hit : Hit). in_window (some l) (some h) hit.document.occurred_at ≡ true) hits
unfolding in_window
widened low high l h [] p q all = tt
widened low high l h (hit ∷ hits) p q ((a, b), all) =
    (ground arith, widened low high l h hits p q all)

open_window :
    (hits : List Hit)
    → All (λ (hit : Hit). in_window none none hit.document.occurred_at ≡ true) hits
unfolding in_window
open_window [] = tt
open_window (hit ∷ hits) = (refl, open_window hits)

abbrev pub InWindow : List Hit → Option Time × Option Time → Type 0
InWindow hits (from, to) =
    All (λ (hit : Hit). in_window from to hit.document.occurred_at ≡ true) hits

pad_window :
    (low high : Time) (hits : List Hit)
    → All (Within low high) hits
    → InWindow hits (padded none none (low, high))
pad_window low high hits all = elim (Bool-cases (is_zero low || is_zero high)) [
  | inl e ↦ rw e (open_window hits)
  | inr e ↦ rw e (
      widened low high (low - 900_000_000_000) (high + 900_000_000_000) hits (omega arith)
        (omega arith) all)
]

hit_window-InWindow : (hits : List Hit) → InWindow hits (padded none none (hit_window hits))
unfolding hit_window
hit_window-InWindow [] = tt
hit_window-InWindow (hit ∷ hits) =
    let t = hit.document.occurred_at in
    pad_window (earliest_from t hits) (latest_from t hits) (hit ∷ hits)
      ((earliest_from_le t hits, latest_from_ge t hits), from-Within t t hits)

-- If the inputs name neither end of the window, every hit occurred in the window that
-- resolveInvestigationWindow returns.
pub resolve_investigation_window-InWindow :
    (f : Formats) (inputs : Dict Text) (hits : List Hit) (window : Option Time × Option Time)
    → is_blank (input key_from inputs) ≡ true
    → is_blank (input key_to inputs) ≡ true
    → resolve_investigation_window f inputs hits ≡ ok window
    → InWindow hits window
unfolding resolve_investigation_window parse_time_input
resolve_investigation_window-InWindow f inputs hits window no_from no_to h =
    Meets-eq-ok (InWindow hits) (resolve_investigation_window f inputs hits) window
      (rw (no_from, no_to) (hit_window-InWindow hits)) h
