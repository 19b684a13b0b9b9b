-- ===== src/RawStore/Tests.antt =====
-- The theorems at records of two sources, whose names differ and which share a file.
use native.Mathlib.Decide.{ℕ_discrete}
use semantic_intelligence_la.Contracts.Evidence.{Record, validate}
use semantic_intelligence_la.Storage.JsonLines.{background, Codec}
use semantic_intelligence_la.Storage.TableCodec.{table_codec, encode_first, encode_second}
use semantic_intelligence_la.Storage.Replay.{accepted}
use semantic_intelligence_la.RawStore.{
  RecordCodec, source_file_name, of_source, memory_replay, file_replay,
}
use semantic_intelligence_la.RawStore.Laws.{
  memory_all, file_all, taken, in_file, Prints, compacted, file_replay-appends,
  file_replay-memory_replay,
}
use semantic_intelligence_la.Base.{
  All, filter_by, Text, codes, ascii, eq_text, trim_space, is_blank, to_lower, equal_fold, ok, ◌≡◌,
  refl, ◌≢◌, Bool, true, Option, none, some, [], ◌∷◌, is_empty, ◌==◌, not, false, map, ap, ◌>>=◌,
}

abbrev any_json : Text → Bool
any_json text = not (is_empty text)

abbrev record_from : Text → Record
record_from source = record {
  event_id = codes "e";
  source = source;
  source_key = codes "k";
  schema_version = codes "v";
  tenant_id = codes "t";
  occurred_at = 5;
  ingested_at = 6;
  attributes = [];
  payload = codes "{ }";
}

abbrev own : Record
own = record_from (codes "aaa_auth")

abbrev foreign : Record
foreign = record_from (codes "aaa-auth")

same_file : source_file_name ⦃u = ascii⦄ own.source ≡ source_file_name ⦃u = ascii⦄ foreign.source
unfolding source_file_name trim_space to_lower
same_file = refl

Record-discrete : Discrete Record
Record-discrete = hlevel ℕ_discrete

foreign≢own : foreign ≢ own
foreign≢own e = cc e

-- the round trip of the lines alone
abbrev table : Codec Record
table = table_codec Record-discrete own foreign (codes "1") (codes "2") (unfold eq_text in refl)

-- json.Compact of the two payloads takes their spaces away
abbrev without_spaces : Text → Text
without_spaces text = filter_by (λ c. not (c == 32)) text

abbrev or_else : Text → Text → Text
or_else [] text = text
or_else (c ∷ s) text = c ∷ s

abbrev squeeze : Text → Text
squeeze text = or_else (without_spaces text) text

or_else-nonempty : (s text : Text) → is_empty text ≡ false → is_empty (or_else s text) ≡ false
or_else-nonempty [] text h = h
or_else-nonempty (c ∷ s) text h = refl

nonempty_not : (b : Bool) → not b ≡ true → b ≡ false
nonempty_not true h = cc
nonempty_not false h = refl

abbrev squeezed_found : Option Record → Option Record
squeezed_found none = none
squeezed_found (some r) = some (record r { payload = squeeze r.payload })

abbrev codec : RecordCodec any_json
codec = record {
  encode = table.encode;
  decode = λ line. squeezed_found (table.decode line);
  compact = squeeze;
  decode-encode = λ r line e. ap squeezed_found (table.decode-encode r line e);
  valid-compact = λ payload h.
      ap not
        (or_else-nonempty (without_spaces payload) payload (nonempty_not (is_empty payload) h));
  valid_nonempty = λ payload h. nonempty_not (is_empty payload) h;
}

-- a payload with a space in it comes back without
squeezed : squeeze own.payload ≡ codes "{}"
unfolding filter_by
squeezed = refl

both-Prints : All (Prints any_json codec) (taken any_json (own ∷ foreign ∷ []))
unfolding accepted validate is_blank trim_space
both-Prints = (
  (codes "1", encode_first Record-discrete own foreign _ _, refl, refl),
  ((codes "2", encode_second Record-discrete own foreign _ _ foreign≢own, refl, refl), tt),
)

-- a replay of `aaa_auth` from its file returns the record of `aaa-auth` too
file_replay-appends_example :
    file_replay ⦃u = ascii⦄ any_json codec background none
      (file_all any_json ⦃u = ascii⦄ codec [] (own ∷ foreign ∷ []))
      (codes "aaa_auth")
    ≡ ok (
        map (compacted any_json ⦃u = ascii⦄ codec) (
          filter_by
            (in_file ⦃u = ascii⦄ (source_file_name ⦃u = ascii⦄ (codes "aaa_auth")))
            (taken any_json (own ∷ foreign ∷ []))))
file_replay-appends_example =
    file_replay-appends any_json ⦃u = ascii⦄ codec (own ∷ foreign ∷ []) (codes "aaa_auth")
      both-Prints

own-Prints : All (Prints any_json codec) (taken any_json (own ∷ []))
unfolding accepted validate is_blank trim_space
own-Prints = ((codes "1", encode_first Record-discrete own foreign _ _, refl, refl), tt)

file_replay-memory_replay_example :
    file_replay ⦃u = ascii⦄ any_json codec background none
      (file_all any_json ⦃u = ascii⦄ codec [] (own ∷ []))
      (codes " AAA_auth")
    ≡ (memory_replay ⦃u = ascii⦄ background (memory_all any_json [] (own ∷ [])) (codes " AAA_auth")
        >>= λ found. ok (map (compacted any_json ⦃u = ascii⦄ codec) found))
file_replay-memory_replay_example =
    file_replay-memory_replay any_json ⦃u = ascii⦄ codec (own ∷ []) (codes " AAA_auth") own-Prints (
      unfold accepted validate is_blank trim_space of_source source_file_name equal_fold eq_text
        to_lower in
      (refl, tt))
