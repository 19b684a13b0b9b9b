-- ===== src/Watcher.antt =====
-- internal/agents/runtime/daemon.go: the watcher that starts runs for subscribers whose sessions
-- keep ending soon. NewService's tests for nil and the ticker of Run are left out.
pub mod Candidates
pub mod Limits
pub mod Counts
pub mod Requests
pub mod Cycle
mod Tests
use semantic_intelligence_la.Base.Times.{ℤ, pos, negsuc}
use semantic_intelligence_la.Base.{
  if◌then◌else◌, is_empty, any, Text, codes, eq_text, trim_space, required, invalid, Result, ok,
  ◌>>=◌, ◌>>◌, fail_if, sort_by, less_text, ℕ, suc, ◌+◌, Bool, true, false, not, ◌||◌, List, [],
  ◌∷◌, ◌++◌, arith,
}

pub record Config : Type 0 where
  pub tenants : List Text
  pub poll_interval : ℤ
  pub window : ℤ
  pub min_events : ℤ
  pub short_session_threshold : ℤ
  pub max_runs_per_cycle : ℤ

abbrev pub is_positive : ℤ → Bool
is_positive (pos (suc n)) = true
is_positive _ = false

-- the number of a duration or count that is not negative
abbrev pub size_of : ℤ → ℕ
size_of (pos n) = n
size_of (negsuc n) = 0

-- the loop of normalizeTenants; `seen` and `tenants` hold the same strings
unfoldable pub tenants_from : List Text → List Text → List Text
tenants_from tenants [] = tenants
tenants_from tenants (value ∷ values) =
    let tenant = trim_space value in
    tenants_from
      (if is_empty tenant || any (λ seen. eq_text seen tenant) tenants
        then tenants
        else tenants ++ tenant ∷ [])
      values

unfoldable pub normalize_tenants : List Text → List Text
unfolding tenants_from
normalize_tenants values = sort_by less_text (tenants_from [] values)

unfoldable pub normalize_config : Config → Config
unfolding normalize_tenants
normalize_config config = record config { tenants = normalize_tenants config.tenants }

unfoldable pub validate_config : Config → Result (Unit {0})
validate_config config = do
  fail_if (is_empty config.tenants) (required (codes "at least one tenant"))
  fail_if (not (is_positive config.poll_interval))
      (invalid (codes "poll interval must be positive"))
  fail_if (not (is_positive config.window)) (invalid (codes "window must be positive"))
  fail_if (not (is_positive config.min_events)) (invalid (codes "min events must be positive"))
  fail_if (not (is_positive config.short_session_threshold))
      (invalid (codes "short session threshold must be positive"))
  fail_if (not (is_positive config.max_runs_per_cycle))
      (invalid (codes "max runs per cycle must be positive"))

-- the configuration that NewService keeps
unfoldable pub configure : Config → Result Config
unfolding normalize_config validate_config
configure config = do validate_config (normalize_config config); ok (normalize_config config)
