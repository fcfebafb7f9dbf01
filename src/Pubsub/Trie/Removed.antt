-- ===== src/Pubsub/Trie/Removed.antt =====
-- Whether `Remove` took the pattern away, and that the level stays (commonspace/pubsub/trie.go).
use any_sync.Common.{
  ◌≡◌, refl, ap, inl, inr, Bool, true, ◌&&◌, List, [], ◌∷◌, ◌==◌, ltb, arith, Bool-cases, ◌-◌,
}
use any_sync.Pubsub.{Bytes}
use any_sync.Pubsub.Trie.{
  TrieLevel, nil_level, level, TrieNode, nil_node, node, child, next_of, refs_of, node_at, prune,
  remove_ref, remove_through, remove_at, is_empty,
}
use any_sync.Pubsub.Trie.Children.{is_there, there-set_child, there-delete_child}
use any_sync.Pubsub.Trie.Counts.{face_at}
use any_sync.Pubsub.Trie.Removal.{face_at_nil}

-- Whether the pattern is gone.
refs_gone : (l : TrieLevel) (s : Bytes) (c : TrieNode) → (remove_ref l s c).1 ≡ (refs_of c == 1)
unfolding remove_ref
refs_gone l s nil_node = refl
refs_gone l s (node next p r) = ground arith

gone_below :
    (below : TrieLevel × Bool) (l : TrieLevel) (s t : Bytes) (ss : List Bytes) (c : TrieNode)
    → below.1 ≡ ((face_at (next_of c) t ss).1 == 1)
    → (remove_through below l s c).1 ≡ ((face_at (next_of c) t ss).1 == 1)
unfolding remove_through node_at
gone_below below l s t ss nil_node h = rw (ap (λ f. f.1) (face_at_nil ss)) refl
gone_below below l s t ss (node nil_level p r) h = rw (ap (λ f. f.1) (face_at_nil ss)) refl
gone_below below l s t ss (node (level ns a b) p r) h = h

pub removed_iff :
    (s : Bytes) (ss : List Bytes) (l : TrieLevel)
    → (remove_at (s ∷ ss) l).1 ≡ ((face_at l s ss).1 == 1)
unfolding remove_at node_at
removed_iff s [] l = refs_gone l s (child l s)
removed_iff s (t ∷ ss) l =
    gone_below _ l s t ss (child l s) (removed_iff t ss (next_of (child l s)))

there-prune :
    (l : TrieLevel) (s : Bytes) (n : TrieNode) → is_there l ≡ true → is_there (prune l s n) ≡ true
there-prune l s nil_node h = there-delete_child l s h
there-prune l s (node next p r) h = elim (Bool-cases (r == 0 && is_empty next)) [
  | inl bare ↦ rw bare (there-delete_child l s h)
  | inr kept ↦ rw kept (there-set_child l s _ h)
]

there-remove_ref :
    (l : TrieLevel) (s : Bytes) (c : TrieNode)
    → is_there l ≡ true
    → is_there (remove_ref l s c).0 ≡ true
unfolding remove_ref
there-remove_ref l s nil_node h = h
there-remove_ref l s (node next p r) h = elim (Bool-cases (r == 0)) [
  | inl none_left ↦ rw none_left h
  | inr some_left ↦ elim (Bool-cases (ltb 0 (r - 1))) [
    | inl more ↦ rw (some_left, more) (there-set_child l s _ h)
    | inr last ↦ rw (some_left, last) (there-prune l s (node next [] 0) h)
  ]
]

there-remove_through :
    (below : TrieLevel × Bool) (l : TrieLevel) (s : Bytes) (c : TrieNode)
    → is_there l ≡ true
    → is_there (remove_through below l s c).0 ≡ true
unfolding remove_through
there-remove_through below l s nil_node h = h
there-remove_through below l s (node nil_level p r) h = h
there-remove_through below l s (node (level ns a b) p r) h = there-prune l s (node below.0 p r) h

pub there-remove_at :
    (s : Bytes) (ss : List Bytes) (l : TrieLevel)
    → is_there l ≡ true
    → is_there (remove_at (s ∷ ss) l).0 ≡ true
unfolding remove_at
there-remove_at s [] l h = there-remove_ref l s (child l s) h
there-remove_at s (t ∷ ss) l h = there-remove_through _ l s (child l s) h
