-- ===== src/Pubsub/Trie/Refines.antt =====
-- The trie after any requests, against the plain list of subscriptions (commonspace/pubsub/trie.go).
pub mod Faces
use any_sync.Common.{
  ℕ, ◌≡◌, refl, sym, ap, inl, inr, Bool, true, ◌&&◌, List, [], ◌∷◌, ◌==◌, ltb, if◌then◌else◌, arith,
  Bool-cases, some, ◌∙◌, ◌+◌, ◌<◌,
}
use any_sync.Pubsub.Bags.{count_of, one_if}
use any_sync.Pubsub.{Bytes, split_topic, validate_topic, no_wildcards}
use any_sync.Pubsub.Segments.{join, join-split_topic}
use any_sync.Pubsub.Trie.{
  PatternTrie, new_pattern_trie, new_level, node_at, root_node, pattern_of, refs_of, add_at,
  remove_at, add_pattern, remove_pattern, match_topic,
}
use any_sync.Pubsub.Trie.Children.{child-new_level, is_there}
use any_sync.Pubsub.Trie.Counts.{
  face, face_at, same_path, same_path_sound, same_path_refl, face-add_at, there-add_at,
}
use any_sync.Pubsub.Trie.Removal.{Drops, Drops-remove_at, face_at_nil}
use any_sync.Pubsub.Trie.Removed.{removed_iff, there-remove_at}
use any_sync.Pubsub.Trie.Matches.{covers, hit, count_of-match_node}
use any_sync.Pubsub.Trie.Subscriptions.{
  Request, subscribe, unsubscribe, handle, handle_all, drop_one, keep, keep_all, distinct, ends_at,
  split_some, ends_at-split_topic, ends_at-drop_one, distinct-drop_one,
}
use any_sync.Pubsub.Trie.Refines.Faces.{Represents, added_face, added, removed_face, taken}

-- One request: the same answer, and the trie stands for the new list.
abbrev Agrees : PatternTrie × Bool → List Bytes × Bool → Type 0
Agrees result kept = Represents result.0 kept.0 × (result.1 ≡ kept.1)

add-Agrees :
    (p s : Bytes) (ss : List Bytes) (subs : List Bytes) (t : PatternTrie)
    → split_topic p ≡ s ∷ ss
    → Represents t subs
    → Agrees (add_pattern t p) (keep subs (subscribe p))
unfolding add_pattern keep distinct
add-Agrees p s ss subs t e r =
    let here : refs_of (node_at (root_node (add_at p (s ∷ ss) t.root)) (s ∷ ss))
        ≡ count_of p subs + 1 =
      ap (λ x. x.1) (rw (same_path_refl (s ∷ ss)) at (added_face p s ss subs t (s ∷ ss) r))
      ∙ ap (λ x. x + 1) (ap (λ x. ends_at x subs) (sym e) ∙ ends_at-split_topic p subs) in
    let answer : (refs_of (node_at (root_node (add_at p (s ∷ ss) t.root)) (s ∷ ss)) == 1)
        ≡ (count_of p subs == 0) =
      rw here (ground arith) in
    rw (e, answer)
      (
        added p s ss subs t _ e r (elim (Bool-cases (count_of p subs == 0)) [
          | inl new ↦ rw new (omega (arith, r.size))
          | inr old ↦ rw old (omega (arith, r.size))
        ]),
        refl,
      )

remove-Agrees :
    (p s : Bytes) (ss : List Bytes) (subs : List Bytes) (t : PatternTrie)
    → split_topic p ≡ s ∷ ss
    → Represents t subs
    → Agrees (remove_pattern t p) (keep subs (unsubscribe p))
unfolding remove_pattern keep node_at
remove-Agrees p s ss subs t e r =
    let here : (face_at t.root s ss).1 ≡ count_of p subs =
      r.counts (s ∷ ss) ∙ ap (λ x. ends_at x subs) (sym e) ∙ ends_at-split_topic p subs in
    let answer : (remove_at (s ∷ ss) t.root).1 ≡ (count_of p subs == 1) =
      removed_iff s ss t.root ∙ ap (λ n. n == 1) here in
    rw (e, answer)
      (
        taken p s ss subs t _ e r (elim (Bool-cases (count_of p subs == 1)) [
          | inl last ↦ rw (last, distinct-drop_one p subs, last, r.size) refl
          | inr more ↦ rw (more, distinct-drop_one p subs, more, r.size) refl
        ]),
        refl,
      )

handle-Agrees :
    (t : PatternTrie) (subs : List Bytes) (q : Request)
    → Represents t subs
    → Agrees (handle t q) (keep subs q)
unfolding handle
handle-Agrees t subs (subscribe p) r = let (s, ss, e) = split_some p in add-Agrees p s ss subs t e r
handle-Agrees t subs (unsubscribe p) r =
    let (s, ss, e) = split_some p in remove-Agrees p s ss subs t e r

all_agree :
    (t : PatternTrie) (subs : List Bytes) (qs : List Request)
    → Represents t subs
    → Represents (handle_all t qs).0 (keep_all subs qs).0
      × ((handle_all t qs).1 ≡ (keep_all subs qs).1)
unfolding handle_all keep_all
all_agree t subs [] r = (r, refl)
all_agree t subs (q ∷ qs) r =
    let (r', answer) = handle-Agrees t subs q r in
    let (r'', answers) = all_agree (handle t q).0 (keep subs q).0 qs r' in
    (r'', rw (answer, answers) refl)

nothing_there : (path : List Bytes) → refs_of (node_at (root_node new_level) path) ≡ 0
unfolding node_at
nothing_there [] = refl
nothing_there (q ∷ qs) = rw (child-new_level q) (ap (λ f. f.1) (face_at_nil qs))

new-Represents : Represents new_pattern_trie []
unfolding ends_at distinct
new-Represents = record {
  there = refl;
  counts = nothing_there;
  named = λ path live. absurd (omega (arith, nothing_there path));
  size = refl;
}

second_too : (a b : Bool) → (a && b) ≡ true → b ≡ true
second_too a b h = ground arith

without_wildcards :
    (topic : Bytes) → validate_topic topic ≡ true → no_wildcards (split_topic topic) ≡ true
unfolding validate_topic
without_wildcards topic valid = second_too _ (no_wildcards (split_topic topic)) valid

paths_tell :
    (p q : Bytes) (path : List Bytes)
    → some (split_topic p) ≡ some path
    → some (split_topic q) ≡ some path
    → p ≡ q
paths_tell p q path hp hq =
    let e : split_topic p ≡ split_topic q = cc in
    sym (join-split_topic p) ∙ ap join e ∙ join-split_topic q

-- After any requests, `Add` and `Remove` have answered just as on the plain list of subscriptions, and the
-- trie counts as many patterns as that list has different ones.
pub handle_all-keep_all :
    (qs : List Request)
    → ((handle_all new_pattern_trie qs).1 ≡ (keep_all [] qs).1)
      × ((handle_all new_pattern_trie qs).0.size ≡ distinct (keep_all [] qs).0)
handle_all-keep_all qs =
    let (r, answers) = all_agree new_pattern_trie [] qs new-Represents in (answers, r.size)

-- After any requests, the matches of a valid topic have each pattern once that is subscribed to and covers
-- the topic, and no other.
pub match_topic-covers :
    (qs : List Request) (topic p : Bytes)
    → validate_topic topic ≡ true
    → count_of p (match_topic (handle_all new_pattern_trie qs).0 topic)
      ≡ one_if (ltb 0 (count_of p (keep_all [] qs).0) && covers (split_topic p) (split_topic topic))
unfolding match_topic hit count_of
match_topic-covers qs topic p valid =
    let (r, answers) = all_agree new_pattern_trie [] qs new-Represents in
    let t = (handle_all new_pattern_trie qs).0 in
    let subs = (keep_all [] qs).0 in
    let counted : refs_of (node_at (root_node t.root) (split_topic p)) ≡ count_of p subs =
      r.counts (split_topic p) ∙ ends_at-split_topic p subs in
    count_of-match_node (split_topic topic) (λ q. some (split_topic q)) (root_node t.root) [] p
      (without_wildcards topic valid) (λ path live. ap some (r.named path live)) paths_tell
    ∙ rw counted (omega arith)
