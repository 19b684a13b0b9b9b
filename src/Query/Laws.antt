-- ===== src/Query/Laws.antt =====
-- What a caller of the query services may rely on.
use semantic_intelligence_la.Base.Times.{Time, ℤ, pos, negsuc}
use semantic_intelligence_la.Contracts.Sessions.{Event}
use semantic_intelligence_la.Contracts.Access
use semantic_intelligence_la.Storage.JsonLines.{background}
use semantic_intelligence_la.Storage.Filters.{field_matches}
use semantic_intelligence_la.Storage.Search.{WithinLimit}
use semantic_intelligence_la.SessionStore
use semantic_intelligence_la.SessionStore.Laws
use semantic_intelligence_la.AccessStore
use semantic_intelligence_la.AccessStore.Laws as AccessLaws
use semantic_intelligence_la.Query.{search_network_sessions, search_network_access_events}
use semantic_intelligence_la.Query.Filters.{
  clamp_limit, window_reversed, normalize_query, validate_query, normalize_access_query,
  validate_access_query,
}
use semantic_intelligence_la.Base.{
  ltb, Bool-cases, length, is_empty, All, All-map_pred, Text, CharTables, trim_space, is_blank,
  equal_fold, ok, IsSorted, trim_space_idempotent, is_blank-trim_space, ℕ, zero, suc, ◌≤◌, ◌<◌, ◌≡◌,
  ◌↔◌, inl, inr, true, false, ◌||◌, Option, none, some, List, arith,
}

-- a window that is open at an end, or does not end before it begins
abbrev pub InOrder : Option Time → Option Time → Type 0
InOrder (some from) (some to) = from ≤ to
InOrder _ _ = Unit

pub window_reversed_iff :
    (from to : Option Time) → (window_reversed from to ≡ false) ↔ InOrder from to
unfolding window_reversed
window_reversed_iff none none = ground arith
window_reversed_iff none (some b) = ground arith
window_reversed_iff (some a) none = ground arith
window_reversed_iff (some a) (some b) = ground arith

-- a limit between 1 and `most`
abbrev pub IsPage : ℕ → ℤ → Type 0
IsPage most (pos (suc n)) = suc n ≤ most
IsPage most _ = ⊥

pub clamp_limit-IsPage :
    (default most : ℕ) (limit : ℤ)
    → 0 < default
    → default ≤ most
    → IsPage most (clamp_limit default most limit)
unfolding clamp_limit
clamp_limit-IsPage (suc d) most (negsuc n) p q = q
clamp_limit-IsPage (suc d) most (pos zero) p q = q
clamp_limit-IsPage (suc d) (suc m) (pos (suc n)) p q = elim (Bool-cases (ltb (suc m) (suc n))) [
  | inl more ↦ rw more (omega arith)
  | inr few ↦ rw few (ground arith)
]
clamp_limit-IsPage (suc d) zero (pos (suc n)) p q = absurd (omega arith)
clamp_limit-IsPage zero most limit p q = absurd (omega arith)

pub length-le_of_IsPage {ℓ} :
    {A : Type ℓ} (most : ℕ) (limit : ℤ) (xs : List A)
    → IsPage most limit
    → WithinLimit limit xs
    → length xs ≤ most
length-le_of_IsPage most (pos (suc n)) xs p w = omega arith
length-le_of_IsPage most (pos zero) xs p w = absurd p
length-le_of_IsPage most (negsuc n) xs p w = absurd p

-- the tenant of an event is that of the query, up to white space at the ends and to case
abbrev pub OfTenant : ⦃u : CharTables⦄ → Text → Text → Type 0
OfTenant tenant value = equal_fold (trim_space value) (trim_space tenant) ≡ true

-- a filter field that is not blank is really tested
pub field_matches-OfTenant :
    ⦃u : CharTables⦄
    → (tenant value : Text) → is_blank tenant ≡ false
    → field_matches (trim_space tenant) value ≡ true
    → OfTenant tenant value
unfolding field_matches
field_matches-OfTenant tenant value named h =
    let h' : (false || equal_fold (trim_space value) (trim_space (trim_space tenant))) ≡ true =
      rw (is_blank-trim_space, named) at h in
    rw trim_space_idempotent at h'

matches-OfTenant :
    ⦃u : CharTables⦄
    → (filter : SessionStore.Query) (event : Event) → is_blank filter.tenant_id ≡ false
    → SessionStore.matches (normalize_query filter) event ≡ true
    → OfTenant filter.tenant_id event.tenant_id
unfolding SessionStore.matches normalize_query
matches-OfTenant filter event named h =
    field_matches-OfTenant filter.tenant_id event.tenant_id named (ground arith)

matches_access-OfTenant :
    ⦃u : CharTables⦄
    → (filter : AccessStore.Query) (event : Access.Event) → is_blank filter.tenant_id ≡ false
    → AccessStore.matches (normalize_access_query filter) event ≡ true
    → OfTenant filter.tenant_id event.tenant_id
unfolding AccessStore.matches normalize_access_query
matches_access-OfTenant filter event named h =
    field_matches-OfTenant filter.tenant_id event.tenant_id named (ground arith)

-- On a memory store, a session query that names a tenant and whose window is not reversed is
-- answered: every event returned is of that tenant, the newest come first, and there are at most
-- 200 of them, whatever limit was asked for.
pub search_network_sessions-answer :
    ⦃u : CharTables⦄
    → (store : SessionStore.MemoryStore) (filter : SessionStore.Query)
    → is_blank filter.tenant_id ≡ false
    → InOrder filter.from filter.to
    → (found : List Event) × (search_network_sessions
          (some (SessionStore.memory_search background store))
          filter
        ≡ ok found)
      × All (λ e. OfTenant filter.tenant_id e.tenant_id) found
      × IsSorted SessionStore.newer found
      × (length found ≤ 200)
unfolding search_network_sessions validate_query is_blank
search_network_sessions-answer store filter named ordered =
    let q : SessionStore.Query = normalize_query filter in
    let (found, answered, a) = Laws.memory_search-IsAnswer store q in
    let forward : window_reversed q.from q.to ≡ false =
      unfold normalize_query in (window_reversed_iff filter.from filter.to).1 ordered in
    let has_tenant : is_empty q.tenant_id ≡ false = unfold normalize_query in named in
    (
      found,
      rw (has_tenant, forward) answered,
      All-map_pred _ _ (λ e h. matches-OfTenant filter e named h) found a.passes,
      a.sorted,
      length-le_of_IsPage 200 q.limit found
          (unfold normalize_query in
            clamp_limit-IsPage 50 200 filter.limit (omega arith) (omega arith))
          a.within,
    )

-- On a memory store, an access query that names a tenant and whose window is not reversed is
-- answered: every event returned is of that tenant, the newest come first, and there are at most
-- 200 of them, whatever limit was asked for.
pub search_network_access_events-answer :
    ⦃u : CharTables⦄
    → (store : AccessStore.MemoryStore) (filter : AccessStore.Query)
    → is_blank filter.tenant_id ≡ false
    → InOrder filter.from filter.to
    → (found : List Access.Event) × (search_network_access_events
          (some (AccessStore.memory_search background store))
          filter
        ≡ ok found)
      × All (λ e. OfTenant filter.tenant_id e.tenant_id) found
      × IsSorted AccessStore.newer found
      × (length found ≤ 200)
unfolding search_network_access_events validate_access_query is_blank
search_network_access_events-answer store filter named ordered =
    let q : AccessStore.Query = normalize_access_query filter in
    let (found, answered, a) = AccessLaws.memory_search-IsAnswer_of_access store q in
    let forward : window_reversed q.from q.to ≡ false =
      unfold normalize_access_query in (window_reversed_iff filter.from filter.to).1 ordered in
    let has_tenant : is_empty q.tenant_id ≡ false = unfold normalize_access_query in named in
    (
      found,
      rw (has_tenant, forward) answered,
      All-map_pred _ _ (λ e h. matches_access-OfTenant filter e named h) found a.passes,
      a.sorted,
      length-le_of_IsPage 200 q.limit found
          (unfold normalize_access_query in
            clamp_limit-IsPage 50 200 filter.limit (omega arith) (omega arith))
          a.within,
    )
