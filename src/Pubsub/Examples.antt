-- ===== src/Pubsub/Examples.antt =====
-- The theorems on topics at `acc/a` and `a//b`.
use any_sync.Common.{◌≡◌, ◌↔◌, refl, true, false, List, [], ◌∷◌}
use any_sync.Pubsub.{Bytes, split_topic, validate_topic, validate_pattern, topic_owner}
use any_sync.Pubsub.Segments.{join, join-split_topic}
use any_sync.Pubsub.Canonical.{IsCanonical, validate_topic_iff, validate_pattern_of_topic}

-- `acc/a`
abbrev owned : Bytes
owned = 97 ∷ 99 ∷ 99 ∷ 47 ∷ 97 ∷ []

-- `a//b`
abbrev doubled : Bytes
doubled = 97 ∷ 47 ∷ 47 ∷ 98 ∷ []

owned_is_valid : validate_topic owned ≡ true
unfolding validate_topic
owned_is_valid = refl

doubled_is_not : validate_topic doubled ≡ false
unfolding validate_topic
doubled_is_not = refl

owned_by : topic_owner owned ≡ 97 ∷ []
unfolding topic_owner
owned_by = refl

join-split_topic_example : join (split_topic doubled) ≡ doubled
join-split_topic_example = join-split_topic doubled

validate_topic_iff_example :
    (validate_topic owned ≡ true)
    ↔ ((first : Bytes) × (others : List Bytes) × IsCanonical owned first others)
validate_topic_iff_example = validate_topic_iff owned

validate_pattern_of_topic_example : validate_pattern owned ≡ true
validate_pattern_of_topic_example = validate_pattern_of_topic owned owned_is_valid
