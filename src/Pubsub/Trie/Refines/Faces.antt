-- ===== src/Pubsub/Trie/Refines/Faces.antt =====
-- The trie against the list of its subscriptions: adding to it and taking from it.
use any_sync.Common.{
  ℕ, ◌≡◌, refl, ap, inl, inr, true, List, [], ◌∷◌, if◌then◌else◌, arith, Bool-cases, ◌∙◌, ◌+◌, ◌<◌,
}
use any_sync.Pubsub.{Bytes, split_topic}
use any_sync.Pubsub.Trie.{PatternTrie, node_at, root_node, pattern_of, refs_of, add_at, remove_at}
use any_sync.Pubsub.Trie.Children.{is_there}
use any_sync.Pubsub.Trie.Counts.{face, same_path, same_path_sound, face-add_at, there-add_at}
use any_sync.Pubsub.Trie.Removal.{Drops, Drops-remove_at}
use any_sync.Pubsub.Trie.Removed.{there-remove_at}
use any_sync.Pubsub.Trie.Subscriptions.{drop_one, distinct, ends_at, ends_at-drop_one}

pub record Represents (t : PatternTrie) (subs : List Bytes) : Type 0 where
  pub there : is_there t.root ≡ true
  pub counts : (path : List Bytes) → refs_of (node_at (root_node t.root) path) ≡ ends_at path subs
  pub named :
      (path : List Bytes)
      → 0 < refs_of (node_at (root_node t.root) path)
      → split_topic (pattern_of (node_at (root_node t.root) path)) ≡ path
  pub size : t.size ≡ distinct subs

pub added_face :
    (p s : Bytes) (ss : List Bytes) (subs : List Bytes) (t : PatternTrie) (path : List Bytes)
    → Represents t subs
    → face (node_at (root_node (add_at p (s ∷ ss) t.root)) path) ≡ (
        if same_path (s ∷ ss) path
        then (p, ends_at path subs + 1)
        else face (node_at (root_node t.root) path))
unfolding node_at same_path
added_face p s ss subs t [] r = refl
added_face p s ss subs t (q ∷ qs) r =
    rw (← r.counts (q ∷ qs)) (face-add_at p s ss t.root q qs r.there)

pub added :
    (p s : Bytes) (ss : List Bytes) (subs : List Bytes) (t : PatternTrie) (n : ℕ)
    → split_topic p ≡ s ∷ ss
    → Represents t subs
    → n ≡ distinct (p ∷ subs)
    → Represents (record { root = add_at p (s ∷ ss) t.root; size = n }) (p ∷ subs)
unfolding ends_at
added p s ss subs t n e r size = record {
  there = there-add_at p s ss t.root r.there;
  counts = λ path. elim (Bool-cases (same_path (s ∷ ss) path)) [
    | inl ends ↦
        let f = added_face p s ss subs t path r in
        let now : refs_of (node_at (root_node (add_at p (s ∷ ss) t.root)) path)
            ≡ ends_at path subs + 1 =
          ap (λ x. x.1) (rw ends at f) in
        rw (e, ends) (omega (arith, now))
    | inr passes ↦
        let f = added_face p s ss subs t path r in
        let now : refs_of (node_at (root_node (add_at p (s ∷ ss) t.root)) path)
            ≡ refs_of (node_at (root_node t.root) path) =
          ap (λ x. x.1) (rw passes at f) in
        rw (e, passes) (omega (arith, now, r.counts path))
  ];
  named = λ path live. elim (Bool-cases (same_path (s ∷ ss) path)) [
    | inl ends ↦
        let f = rw ends at (added_face p s ss subs t path r) in
        let now : pattern_of (node_at (root_node (add_at p (s ∷ ss) t.root)) path) ≡ p =
          ap (λ x. x.0) f in
        ap split_topic now ∙ e ∙ same_path_sound (s ∷ ss) path ends
    | inr passes ↦
        let f = rw passes at (added_face p s ss subs t path r) in
        let refs : refs_of (node_at (root_node (add_at p (s ∷ ss) t.root)) path)
            ≡ refs_of (node_at (root_node t.root) path) =
          ap (λ x. x.1) f in
        let now : pattern_of (node_at (root_node (add_at p (s ∷ ss) t.root)) path)
            ≡ pattern_of (node_at (root_node t.root) path) =
          ap (λ x. x.0) f in
        ap split_topic now ∙ r.named path (omega (arith, refs))
  ];
  size = size;
}

pub removed_face :
    (s : Bytes) (ss : List Bytes) (subs : List Bytes) (t : PatternTrie) (path : List Bytes)
    → Represents t subs
    → Drops
        (same_path (s ∷ ss) path)
        (face (node_at (root_node t.root) path))
        (face (node_at (root_node (remove_at (s ∷ ss) t.root).0) path))
unfolding node_at same_path
removed_face s ss subs t [] r = record { refs = refl; pattern = λ h. refl }
removed_face s ss subs t (q ∷ qs) r = Drops-remove_at s ss t.root q qs r.there

pub taken :
    (p s : Bytes) (ss : List Bytes) (subs : List Bytes) (t : PatternTrie) (n : ℕ)
    → split_topic p ≡ s ∷ ss
    → Represents t subs
    → n ≡ distinct (drop_one p subs)
    → Represents (record { root = (remove_at (s ∷ ss) t.root).0; size = n }) (drop_one p subs)
taken p s ss subs t n e r size = record {
  there = there-remove_at s ss t.root r.there;
  counts = λ path.
      (removed_face s ss subs t path r).refs
      ∙ rw (r.counts path, ends_at-drop_one path p subs, e) refl;
  named = λ path live.
      let d = removed_face s ss subs t path r in
      let before : 0 < refs_of (node_at (root_node t.root) path) =
        elim (Bool-cases (same_path (s ∷ ss) path)) [
          | inl ends ↦ let f = rw ends at d.refs in omega (arith, f)
          | inr passes ↦ let f = rw passes at d.refs in omega (arith, f)
        ] in
      ap split_topic (d.pattern live) ∙ r.named path before;
  size = size;
}
