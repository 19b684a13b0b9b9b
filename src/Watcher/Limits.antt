-- ===== src/Watcher/Limits.antt =====
-- The configuration that the watcher accepts, and the test of a short session.
use semantic_intelligence_la.Base.Times.{pos}
use semantic_intelligence_la.Watcher.{
  Config, is_positive, tenants_from, normalize_tenants, normalize_config, validate_config,
  configure,
}
use semantic_intelligence_la.Watcher.Candidates.{nanoseconds, is_short}
use semantic_intelligence_la.Base.{
  Bool-cases, is_empty, any, All, All-append, Text, codes, eq_text, trim_space, Error, invalid,
  Result, ok, ◌>>◌, fail_if, Meets, fail_if-Meets, Meets-then, Meets-eq-ok, IsSorted, sort_by-All,
  sort_by-IsSorted, less_text, less_text-IsStrictWeak, ℕ, ◌*◌, ◌≤◌, ◌<◌, ◌≡◌, refl, ◌↔◌, inl, inr,
  Bool, true, false, not, List, [], ◌∷◌, ◌++◌, arith,
}

abbrev IsFilled : Text → Type 0
IsFilled value = is_empty value ≡ false

tenants_from-All :
    (tenants values : List Text) → All IsFilled tenants → All IsFilled (tenants_from tenants values)
unfolding tenants_from
tenants_from-All tenants [] all = all
tenants_from-All tenants (value ∷ values) all =
    let tenant = trim_space value in
    elim (Bool-cases (is_empty tenant)) [
      | inl e ↦ rw e (tenants_from-All tenants values all)
      | inr e ↦ elim (Bool-cases (any (λ seen. eq_text seen tenant) tenants)) [
        | inl seen ↦ rw (e, seen) (tenants_from-All tenants values all)
        | inr new ↦
            rw (e, new)
              (tenants_from-All (tenants ++ tenant ∷ []) values
                (All-append IsFilled tenants (tenant ∷ []) all (e, tt)))
      ]
    ]

-- what the watcher runs with
pub record IsConfigured (config : Config) : Type 0 where
  pub some_tenant : is_empty config.tenants ≡ false
  pub filled : All IsFilled config.tenants
  pub sorted : IsSorted less_text config.tenants
  pub window : is_positive config.window ≡ true
  pub min_events : is_positive config.min_events ≡ true
  pub threshold : is_positive config.short_session_threshold ≡ true
  pub max_runs : is_positive config.max_runs_per_cycle ≡ true

-- a test of validateConfig, and what follows it
positive-then :
    (P : Type 0) (b : Bool) (e : Error) (rest : Result (Unit {0}))
    → (b ≡ true → Meets (λ _. P) rest)
    → Meets (λ _. P) (fail_if (not b) e >> rest)
positive-then P true e rest h = h refl
positive-then P false e rest h = tt

last-Meets :
    (config : Config)
    → is_empty config.tenants ≡ false
    → All IsFilled config.tenants
    → IsSorted less_text config.tenants
    → is_positive config.window ≡ true
    → is_positive config.min_events ≡ true
    → is_positive config.short_session_threshold ≡ true
    → Meets
        (λ _. IsConfigured config)
        (fail_if
          (not (is_positive config.max_runs_per_cycle))
          (invalid (codes "max runs per cycle must be positive")))
last-Meets config some_tenant filled sorted window min_events threshold =
    elim (Bool-cases (is_positive config.max_runs_per_cycle)) [
      | inl e ↦ rw e (record {
        some_tenant = some_tenant;
        filled = filled;
        sorted = sorted;
        window = window;
        min_events = min_events;
        threshold = threshold;
        max_runs = e;
      })
      | inr e ↦ rw e tt
    ]

validate-Meets :
    (config : Config)
    → All IsFilled config.tenants
    → IsSorted less_text config.tenants
    → Meets (λ _. IsConfigured config) (validate_config config)
unfolding validate_config
validate-Meets config filled sorted =
    Meets-then (λ _. is_empty config.tenants ≡ false) (λ _. IsConfigured config)
      (fail_if (is_empty config.tenants) _) _ (fail_if-Meets (is_empty config.tenants) _)
      (λ v some_tenant.
        positive-then (IsConfigured config) (is_positive config.poll_interval) _ _ (λ interval.
          positive-then (IsConfigured config) (is_positive config.window) _ _ (λ window.
            positive-then (IsConfigured config) (is_positive config.min_events) _ _ (λ min_events.
              positive-then (IsConfigured config) (is_positive config.short_session_threshold) _ _
                (λ threshold.
                  last-Meets config some_tenant filled sorted window min_events threshold)))))

normal_tenants :
    (values : List Text)
    → All IsFilled (normalize_tenants values) × IsSorted less_text (normalize_tenants values)
unfolding normalize_tenants
normal_tenants values = (
  sort_by-All less_text IsFilled (tenants_from [] values) (tenants_from-All [] values tt),
  sort_by-IsSorted less_text less_text-IsStrictWeak (tenants_from [] values),
)

-- A configuration that the watcher accepts has at least one tenant; its tenants are not empty and
-- are sorted, and the window, the number of events, the threshold and the number of runs are
-- positive.
pub configure-IsConfigured :
    (config accepted : Config) → configure config ≡ ok accepted → IsConfigured accepted
unfolding configure normalize_config
configure-IsConfigured config accepted h =
    let normal = normalize_config config in
    let (filled, sorted) = normal_tenants config.tenants in
    Meets-eq-ok IsConfigured (configure config) accepted
      (Meets-then (λ _. IsConfigured normal) IsConfigured (validate_config normal) _
        (validate-Meets normal filled sorted) (λ v ready. ready))
      h

-- A session of so few seconds that their nanoseconds are below 2 ^ 63 is short, for a threshold
-- that is not negative, exactly when its nanoseconds are at most the threshold.
pub is_short_iff :
    (seconds threshold : ℕ)
    → seconds * 1_000_000_000 < 9_223_372_036_854_775_808
    → (is_short seconds (pos threshold) ≡ true) ↔ (seconds * 1_000_000_000 ≤ threshold)
unfolding is_short nanoseconds
is_short_iff seconds threshold small = ground arith

-- A session of so many seconds that their nanoseconds are from 2 ^ 63 to below 2 ^ 64 counts as
-- short, for every threshold that is not negative.
pub is_short-overflow :
    (seconds threshold : ℕ)
    → 9_223_372_036_854_775_808 ≤ seconds * 1_000_000_000
    → seconds * 1_000_000_000 < 18_446_744_073_709_551_616
    → is_short seconds (pos threshold) ≡ true
unfolding is_short nanoseconds
is_short-overflow seconds threshold big wraps = ground arith
