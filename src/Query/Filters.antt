-- ===== src/Query/Filters.antt =====
-- How the query services normalise and check a filter.
use semantic_intelligence_la.Base.Times.{Time, after, ℤ, pos, negsuc}
use semantic_intelligence_la.SessionStore
use semantic_intelligence_la.AccessStore
use semantic_intelligence_la.Base.{
  ltb, if◌then◌else◌, is_empty, Text, codes, trim_space, Error, required, invalid, Result, ◌>>◌,
  fail_if, ℕ, zero, suc, Bool, false, Option, some,
}

-- Query of internal/storage/metadata/retrieval/store.go
pub record RetrievalQuery : Type 0 where
  pub tenant_id : Text
  pub query_text : Text
  pub subscriber_id : Text
  pub session_id : Text
  pub request_id : Text
  pub status : Text
  pub outcome : Text
  pub nas_ip_address : Text
  pub client_ip_address : Text
  pub from : Option Time
  pub to : Option Time
  pub limit : ℤ

abbrev pub not_configured : Error
not_configured = invalid (codes "query service is not configured")

abbrev pub bad_window : Error
bad_window = invalid (codes "from must be before or equal to to")

-- the `switch` on the limit
unfoldable pub clamp_limit : ℕ → ℕ → ℤ → ℤ
clamp_limit default most (negsuc _) = pos default
clamp_limit default most (pos zero) = pos default
clamp_limit default most (pos (suc n)) = if ltb most (suc n) then pos most else pos (suc n)

-- `from != nil && to != nil && from.After(*to)`
unfoldable pub window_reversed : Option Time → Option Time → Bool
window_reversed (some from) (some to) = after from to
window_reversed _ _ = false

abbrev pub default_session_limit : ℕ
default_session_limit = 50

abbrev pub max_session_limit : ℕ
max_session_limit = 200

-- `Status` is not trimmed here
unfoldable pub normalize_query : SessionStore.Query → SessionStore.Query
unfolding clamp_limit
normalize_query filter = record filter {
  tenant_id = trim_space filter.tenant_id;
  subscriber_id = trim_space filter.subscriber_id;
  session_id = trim_space filter.session_id;
  nas_ip_address = trim_space filter.nas_ip_address;
  client_ip_address = trim_space filter.client_ip_address;
  limit = clamp_limit default_session_limit max_session_limit filter.limit;
}

unfoldable pub validate_query : SessionStore.Query → Result (Unit {0})
unfolding window_reversed
validate_query filter = do
  fail_if (is_empty filter.tenant_id) (required (codes "tenant_id"))
  fail_if (window_reversed filter.from filter.to) bad_window

abbrev pub default_access_limit : ℕ
default_access_limit = 50

abbrev pub max_access_limit : ℕ
max_access_limit = 200

unfoldable pub normalize_access_query : AccessStore.Query → AccessStore.Query
unfolding clamp_limit
normalize_access_query filter = record filter {
  tenant_id = trim_space filter.tenant_id;
  subscriber_id = trim_space filter.subscriber_id;
  request_id = trim_space filter.request_id;
  session_id = trim_space filter.session_id;
  outcome = trim_space filter.outcome;
  nas_ip_address = trim_space filter.nas_ip_address;
  client_ip_address = trim_space filter.client_ip_address;
  limit = clamp_limit default_access_limit max_access_limit filter.limit;
}

unfoldable pub validate_access_query : AccessStore.Query → Result (Unit {0})
unfolding window_reversed
validate_access_query filter = do
  fail_if (is_empty filter.tenant_id) (required (codes "tenant_id"))
  fail_if (window_reversed filter.from filter.to) bad_window

abbrev pub default_retrieval_limit : ℕ
default_retrieval_limit = 10

abbrev pub max_retrieval_limit : ℕ
max_retrieval_limit = 50

unfoldable pub normalize_retrieval_query : RetrievalQuery → RetrievalQuery
unfolding clamp_limit
normalize_retrieval_query filter = record filter {
  tenant_id = trim_space filter.tenant_id;
  query_text = trim_space filter.query_text;
  subscriber_id = trim_space filter.subscriber_id;
  session_id = trim_space filter.session_id;
  request_id = trim_space filter.request_id;
  status = trim_space filter.status;
  outcome = trim_space filter.outcome;
  nas_ip_address = trim_space filter.nas_ip_address;
  client_ip_address = trim_space filter.client_ip_address;
  limit = clamp_limit default_retrieval_limit max_retrieval_limit filter.limit;
}

unfoldable pub validate_retrieval_query : RetrievalQuery → Result (Unit {0})
unfolding window_reversed
validate_retrieval_query filter = do
  fail_if (is_empty filter.tenant_id) (required (codes "tenant_id"))
  fail_if (is_empty filter.query_text) (required (codes "query"))
  fail_if (window_reversed filter.from filter.to) bad_window
