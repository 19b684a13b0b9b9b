-- ===== src/Adapters/Routing.antt =====
-- The partition keys that the adapters ask for.
use semantic_intelligence_la.Contracts.Evidence.{new_partition_key}
use semantic_intelligence_la.Base.{
  Text, codes, trim_space, is_blank, ok, trim_space_idempotent, is_blank-trim_space, ◌≡◌, refl, ap,
  ◌∙◌, false, ◌++◌,
}

new_partition_key_ok :
    (kind value : Text)
    → is_blank kind ≡ false
    → is_blank value ≡ false
    → new_partition_key kind value ≡ ok (trim_space kind ++ (codes ":" ++ trim_space value))
unfolding new_partition_key
new_partition_key_ok kind value h k = rw (h, k) refl

pub new_partition_key-subscriber :
    (username : Text)
    → is_blank username ≡ false
    → new_partition_key (codes "subscriber") (trim_space username)
      ≡ ok (codes "subscriber:" ++ trim_space username)
new_partition_key-subscriber username named =
    new_partition_key_ok (codes "subscriber") (trim_space username)
      (unfold is_blank trim_space in refl) (is_blank-trim_space username ∙ named)
    ∙ ap (λ t. ok (trim_space (codes "subscriber") ++ (codes ":" ++ t)))
        (trim_space_idempotent username)
    ∙ unfold trim_space in refl
