-- ===== src/Pubsub/Trie/Examples.antt =====
-- A trie of three patterns: `a/>`, `a/*` and `a/b`, one of them subscribed to twice.
use any_sync.Common.{◌≡◌, refl, true, false, ◌&&◌, ltb, List, [], ◌∷◌}
use any_sync.Pubsub.Bags.{count_of, one_if}
use any_sync.Pubsub.{Bytes, split_topic, split_from, validate_topic}
use any_sync.Pubsub.Trie.{new_pattern_trie, match_topic}
use any_sync.Pubsub.Trie.Matches.{covers}
use any_sync.Pubsub.Trie.Subscriptions.{
  Request, subscribe, unsubscribe, handle_all, keep_all, distinct,
}
use any_sync.Pubsub.Trie.Refines.{handle_all-keep_all, match_topic-covers}

abbrev deep : Bytes
deep = 97 ∷ 47 ∷ 62 ∷ []

abbrev wide : Bytes
wide = 97 ∷ 47 ∷ 42 ∷ []

abbrev exact : Bytes
exact = 97 ∷ 47 ∷ 98 ∷ []

abbrev requests : List Request
requests =
    subscribe exact
    ∷ subscribe wide
    ∷ subscribe exact
    ∷ subscribe deep
    ∷ unsubscribe exact
    ∷ unsubscribe wide
    ∷ []

requests_answered :
    (handle_all new_pattern_trie requests).1 ≡ true ∷ true ∷ false ∷ true ∷ false ∷ true ∷ []
unfolding handle_all split_from
requests_answered = refl

-- `>` first, then the literal; `*` is gone.
exact_matched : match_topic (handle_all new_pattern_trie requests).0 exact ≡ deep ∷ exact ∷ []
unfolding handle_all match_topic split_from
exact_matched = refl

exact_is_valid : validate_topic exact ≡ true
unfolding validate_topic
exact_is_valid = refl

handle_all-keep_all_example :
    ((handle_all new_pattern_trie requests).1 ≡ (keep_all [] requests).1)
    × ((handle_all new_pattern_trie requests).0.size ≡ distinct (keep_all [] requests).0)
handle_all-keep_all_example = handle_all-keep_all requests

match_topic-covers_example :
    count_of deep (match_topic (handle_all new_pattern_trie requests).0 exact)
    ≡ one_if (
        ltb 0 (count_of deep (keep_all [] requests).0)
        && covers (split_topic deep) (split_topic exact))
match_topic-covers_example = match_topic-covers requests exact deep exact_is_valid
