-- ===== src/Harness/Windows.antt =====
-- parseTimeInput, hitWindow and resolveInvestigationWindow.
pub mod Laws
use semantic_intelligence_la.Base.Times.{Time, Duration, zero_time, is_zero, before, after, second}
use semantic_intelligence_la.Base.Dict.{Dict}
use semantic_intelligence_la.Contracts.Retrieval.{Hit}
use semantic_intelligence_la.Harness.Formats.{Formats}
use semantic_intelligence_la.Harness.Plan.{input, key_from, key_to}
use semantic_intelligence_la.Base.{
  if◌then◌else◌, Text, codes, trim_space, is_blank, Error, invalid, external, Result, ok, err,
  ◌>>=◌, ◌>>◌, fail_if, ◌+◌, ◌-◌, ◌*◌, Bool, false, ◌||◌, Option, none, some, List, [], ◌∷◌, arith,
}

abbrev pub correlation_window_pad : Duration
correlation_window_pad = 900 * second

abbrev pub parse_error : Error
parse_error = external 3

-- time.RFC3339, then time.RFC3339Nano
abbrev pub parsed : Formats → Text → Result (Option Time)
parsed f value = elim (f.parse_rfc3339 value) [
  | some t ↦ ok (some t)
  | none ↦ elim (f.parse_rfc3339_nano value) [ some t ↦ ok (some t) | none ↦ err parse_error ]
]

unfoldable pub parse_time_input : Formats → Text → Result (Option Time)
parse_time_input f value = if is_blank value then ok none else parsed f (trim_space value)

unfoldable pub earliest_from : Time → List Hit → Time
earliest_from t [] = t
earliest_from t (hit ∷ hits) =
    earliest_from (if before hit.document.occurred_at t then hit.document.occurred_at else t) hits

unfoldable pub latest_from : Time → List Hit → Time
latest_from t [] = t
latest_from t (hit ∷ hits) =
    latest_from (if after hit.document.occurred_at t then hit.document.occurred_at else t) hits

unfoldable pub hit_window : List Hit → Time × Time
unfolding earliest_from latest_from
hit_window [] = (zero_time, zero_time)
hit_window (hit ∷ hits) =
    (earliest_from hit.document.occurred_at hits, latest_from hit.document.occurred_at hits)

-- `from != nil && to != nil && from.After(*to)`
abbrev pub reversed : Option Time → Option Time → Bool
reversed (some f) (some t) = after f t
reversed _ _ = false

abbrev pub or_time : Option Time → Time → Option Time
or_time (some t) default = some t
or_time none default = some default

-- the window where an end is open: the hits' window, padded, if there are hits
abbrev pub padded : Option Time → Option Time → Time × Time → Option Time × Option Time
padded from to (earliest, latest) = if is_zero earliest || is_zero latest then (from, to) else (
  or_time from (earliest - correlation_window_pad),
  or_time to (latest + correlation_window_pad),
)

abbrev pub completed_window : Option Time → Option Time → List Hit → Option Time × Option Time
completed_window (some f) (some t) hits = (some f, some t)
completed_window from to hits = padded from to (hit_window hits)

unfoldable pub resolve_investigation_window :
    Formats → Dict Text → List Hit → Result (Option Time × Option Time)
unfolding parse_time_input hit_window
resolve_investigation_window f inputs hits = do
  from ← parse_time_input f (input key_from inputs)
  to ← parse_time_input f (input key_to inputs)
  fail_if (reversed from to) (invalid (codes "from must be before or equal to to"))
  ok (completed_window from to hits)
