-- ===== src/Adapters/Shared.antt =====
-- internal/adapters: what the adapters of the sources share. Both packages declare these functions
-- for themselves, with the same bodies. The layouts of `time` and the numerals of `strconv` are
-- parameters; cloneAttributes, cloneInt and cloneUint64 are the identity on values.
use semantic_intelligence_la.Base.Times.{Time, ℤ}
use semantic_intelligence_la.Base.Dict.{Dict, insert}
use semantic_intelligence_la.Contracts.Evidence.{Record, Envelope}
use semantic_intelligence_la.Base.{
  ◌==◌, if◌then◌else◌, Text, codes, eq_text, trim_space, is_blank, required, invalid, Result, ok,
  ◌>>=◌, ◌>>◌, fail_if, ℕ, Bool, not, map,
}

pub record Stamps : Type 0 where
  pub rfc3339_nano : Time → Text
  pub key_time : Time → Text  -- Format("20060102T150405.000000")
  pub format_uint : ℕ → Text
  pub itoa : ℤ → Text

-- Config of the two packages
pub record Config : Type 0 where
  pub id : Text
  pub kind : Text
  pub enabled : Bool
  pub tenant_id : Text
  pub display_name : Text
  pub provider : Text
  pub input_path : Text
  pub schema_version : Text
  pub subject : Text

abbrev pub subject_raw_events : Text
subject_raw_events = codes "sil.raw.events"

-- Config.Validate of the package of this kind
unfoldable pub validate_source : Text → Config → Result (Unit {0})
validate_source kind cfg = do
  fail_if (is_blank cfg.id) (required (codes "config id"))
  fail_if (not (eq_text (trim_space cfg.kind) kind)) (invalid (codes "config kind"))
  fail_if (is_blank cfg.tenant_id) (required (codes "config tenant_id"))
  fail_if (is_blank cfg.provider) (required (codes "config provider"))
  fail_if (is_blank cfg.input_path) (required (codes "config input_path"))
  fail_if (is_blank cfg.schema_version) (required (codes "config schema_version"))
  fail_if (is_blank cfg.subject) (required (codes "config subject"))

abbrev pub or_default : Text → Text → Text
or_default default value = if is_blank value then default else value

-- what LoadConfig fills in
unfoldable pub fill_defaults : Text → Text → Config → Config
fill_defaults kind schema cfg = record cfg {
  id = or_default kind cfg.id;
  kind = or_default kind cfg.kind;
  schema_version = or_default schema cfg.schema_version;
  subject = or_default subject_raw_events cfg.subject;
}

-- LoadConfig: os.ReadFile and yaml.Unmarshal are parameters
unfoldable pub load_source : Text → Text → Result Text → (Text → Result Config) → Result Config
unfolding validate_source fill_defaults
load_source kind schema file parse = do
  text ← file
  cfg ← parse text
  validate_source kind (fill_defaults kind schema cfg)
  fail_if (not cfg.enabled) (invalid (codes "source is disabled"))
  ok (fill_defaults kind schema cfg)

-- Config.EffectiveInputPath
unfoldable pub effective_input_path : Config → Text → Text
effective_input_path cfg override =
    if is_blank override then trim_space cfg.input_path else trim_space override

-- addStringAttr
unfoldable pub add_string_attr : Text → Text → Dict Text → Dict Text
add_string_attr key value attributes =
    if is_blank value then attributes else insert key (trim_space value) attributes

-- strings.ReplaceAll of one code point by another
unfoldable pub replace_code : ℕ → ℕ → Text → Text
replace_code old new = map (λ c. if c == old then new else c)

unfoldable pub sanitize_id_token : Text → Text
unfolding replace_code
sanitize_id_token value = replace_code 32 95 (trim_space value)

-- the envelope that both Adapt functions make of a record
unfoldable pub envelope_of : Record → Text → Envelope
envelope_of r partition_key = record {
  event_id = r.event_id;
  source = r.source;
  source_key = r.source_key;
  schema_version = r.schema_version;
  partition_key = partition_key;
  occurred_at = r.occurred_at;
  ingested_at = r.ingested_at;
  payload = r.payload;
}
