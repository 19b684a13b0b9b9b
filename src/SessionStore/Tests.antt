-- ===== src/SessionStore/Tests.antt =====
-- The theorems at two stored events.
use native.Mathlib.Decide.{ℕ_discrete}
use semantic_intelligence_la.Base.Times.{pos}
use semantic_intelligence_la.Contracts.Sessions.{Event, stop, validate}
use semantic_intelligence_la.Storage.JsonLines.{Codec, background, sound_disk, too_long, line_bytes}
use semantic_intelligence_la.Storage.TableCodec.{table_codec, encode_first, encode_second}
use semantic_intelligence_la.Storage.Replay.{accepted, Fits}
use semantic_intelligence_la.SessionStore.{Query, accept, memory_search, file_search}
use semantic_intelligence_la.SessionStore.Laws.{memory_all, file_all, file_search-memory_search}
use semantic_intelligence_la.Base.{
  Text, codes, ascii, eq_text, trim_space, is_blank, ℕ, ◌+◌, ◌≡◌, refl, ap, ◌≢◌, none, some, [],
  ◌∷◌, arith,
}

abbrev event_at : ℕ → Text → Event
event_at t session_id = record {
  event_id = codes "e";
  source_event_id = codes "s";
  source = codes "radius";
  source_key = codes "k";
  schema_version = codes "v";
  event_type = codes "y";
  tenant_id = codes "t";
  occurred_at = t;
  ingested_at = t + 1;
  subscriber_id = codes "ann";
  session_id = session_id;
  status = stop;
  nas_ip_address = [];
  nas_port = none;
  client_ip_address = [];
  assigned_ip_address = [];
  calling_station_id = [];
  called_station_id = [];
  packet_type = [];
  session_time_seconds = some 9;
  input_octets = none;
  output_octets = none;
  tags = [];
  semantic_text = codes "x";
  attributes = [];
}

abbrev pub early : Event
early = event_at 5 (codes "one")

abbrev pub late : Event
late = event_at 7 (codes "two")

abbrev pub for_tenant : Query
for_tenant = record {
  tenant_id = codes " T ";
  subscriber_id = [];
  session_id = [];
  status = [];
  nas_ip_address = [];
  client_ip_address = [];
  from = some 4;
  to = none;
  limit = pos 1;
}

Event-discrete : Discrete Event
Event-discrete = hlevel ℕ_discrete

late≢early : late ≢ early
late≢early e = omega (arith, ap (λ (r : Event). r.occurred_at) e)

abbrev codec : Codec Event
codec = table_codec Event-discrete early late (codes "1") (codes "2") (unfold eq_text in refl)

Fits-early : Fits codec early
Fits-early =
    (codes "1", encode_first Event-discrete early late _ _, (unfold too_long line_bytes in refl))

Fits-late : Fits codec late
Fits-late = (
  codes "2",
  encode_second Event-discrete early late _ _ late≢early,
  (unfold too_long line_bytes in refl),
)

file_search-memory_search_example :
    file_search codec ⦃u = ascii⦄ background sound_disk
      (file_all codec none (early ∷ late ∷ []))
      for_tenant
    ≡ memory_search ⦃u = ascii⦄ background (memory_all [] (early ∷ late ∷ [])) for_tenant
unfolding accepted accept validate is_blank trim_space
file_search-memory_search_example =
    file_search-memory_search ⦃u = ascii⦄ codec (early ∷ late ∷ []) for_tenant
      (Fits-early, (Fits-late, tt))
