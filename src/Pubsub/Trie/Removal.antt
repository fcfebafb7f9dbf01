-- ===== src/Pubsub/Trie/Removal.antt =====
-- What the nodes of the trie hold after `Remove` (commonspace/pubsub/trie.go).
use any_sync.Common.{
  ℕ, ◌≡◌, refl, ap, inl, inr, Bool, true, false, ◌&&◌, List, [], ◌∷◌, ◌==◌, ltb, if◌then◌else◌,
  arith, Bool-cases, ◌∙◌, ◌-◌, ◌<◌,
}
use any_sync.Pubsub.Bags.{same_bytes_refl, same_bytes_sound}
use any_sync.Pubsub.{Bytes, same_bytes}
use any_sync.Pubsub.Trie.{
  TrieLevel, nil_level, level, TrieNode, nil_node, node, child, set_child, delete_child, next_of,
  refs_of, node_at, prune, remove_ref, remove_through, remove_at, is_empty,
}
use any_sync.Pubsub.Trie.Children.{child-set, child-delete, child-is_empty, is_there}
use any_sync.Pubsub.Trie.Counts.{Face, face, face_at, same_path}

-- From `old` to `new`, with a reference fewer if `taken`; the pattern stays while there are references.
pub record Drops (taken : Bool) (old new : Face) : Type 0 where
  pub refs : new.1 ≡ (if taken then old.1 - 1 else old.1)
  pub pattern : 0 < new.1 → new.0 ≡ old.0

Drops-same : (f : Face) → Drops false f f
Drops-same f = record { refs = refl; pattern = λ h. refl }

Drops-nothing : (taken : Bool) (f : Face) → f.1 ≡ 0 → Drops taken f f
Drops-nothing taken f e = record { refs = ground arith; pattern = λ h. refl }

Drops-then : {taken : Bool} {f g h : Face} → Drops taken f g → Drops false g h → Drops taken f h
Drops-then a b = record {
  refs = b.refs ∙ a.refs;
  pattern = λ live. b.pattern live ∙ a.pattern (omega (arith, b.refs));
}

pub face_at_nil : (qs : List Bytes) → face (node_at nil_node qs) ≡ ([], 0)
unfolding node_at child
face_at_nil [] = refl
face_at_nil (q ∷ qs) = face_at_nil qs

-- An empty node without references holds what no node does.
emptied :
    (next : TrieLevel) (p : Bytes) (r : ℕ) (qs : List Bytes)
    → (r == 0 && is_empty next) ≡ true
    → Drops false (face (node_at (node next p r) qs)) ([], 0)
unfolding node_at
emptied next p r [] h = record { refs = ground arith; pattern = λ live. absurd (omega arith) }
emptied next p r (q ∷ qs) h =
    let nothing : child next q ≡ nil_node = child-is_empty next q (ground arith) in
    rw (nothing, face_at_nil qs) (Drops-same ([], 0))

deleted_below :
    (l : TrieLevel) (s q : Bytes) (qs : List Bytes) (f : Face)
    → Drops false f ([], 0)
    → Drops false (if same_bytes s q then f else face_at l q qs) (face_at (delete_child l s) q qs)
deleted_below l s q qs f gone = elim (Bool-cases (same_bytes s q)) [
  | inl hit ↦ rw (child-delete l s q, hit, face_at_nil qs) gone
  | inr miss ↦ rw (child-delete l s q, miss) (Drops-same _)
]

set_below :
    (l : TrieLevel) (s q : Bytes) (qs : List Bytes) (n : TrieNode)
    → is_there l ≡ true
    → face_at (set_child l s n) q qs
      ≡ (if same_bytes s q then face (node_at n qs) else face_at l q qs)
set_below l s q qs n there = elim (Bool-cases (same_bytes s q)) [
  | inl hit ↦ rw (child-set l s q n there, hit) refl
  | inr miss ↦ rw (child-set l s q n there, miss) refl
]

-- Pruning loses nothing.
pruned :
    (l : TrieLevel) (s q : Bytes) (qs : List Bytes) (n : TrieNode)
    → is_there l ≡ true
    → Drops false
        (if same_bytes s q then face (node_at n qs) else face_at l q qs)
        (face_at (prune l s n) q qs)
pruned l s q qs nil_node there = deleted_below l s q qs _ (rw (face_at_nil qs) (Drops-same ([], 0)))
pruned l s q qs (node next p r) there = elim (Bool-cases (r == 0 && is_empty next)) [
  | inl bare ↦ rw bare (deleted_below l s q qs _ (emptied next p r qs bare))
  | inr kept ↦ rw (kept, set_below l s q qs (node next p r) there) (Drops-same _)
]

-- What becomes of one child decides of what becomes of the level.
by_child :
    (l : TrieLevel) (s q : Bytes) (ss qs : List Bytes) (f : Face)
    → Drops (same_path ss qs) (face_at l s qs) f
    → Drops
        (same_path (s ∷ ss) (q ∷ qs))
        (face_at l q qs)
        (if same_bytes s q then f else face_at l q qs)
unfolding same_path
by_child l s q ss qs f d = elim (Bool-cases (same_bytes s q)) [
  | inl hit ↦ let e : s ≡ q = same_bytes_sound s q hit in rw (hit, ← e) d
  | inr miss ↦ rw miss (Drops-same _)
]

-- A node with another count of references.
counted_down :
    (next : TrieLevel) (p p' : Bytes) (r : ℕ) (qs : List Bytes)
    → (0 < r - 1 → p' ≡ p)
    → Drops
        (same_path [] qs)
        (face (node_at (node next p r) qs))
        (face (node_at (node next p' (r - 1)) qs))
unfolding node_at same_path
counted_down next p p' r [] h = record { refs = refl; pattern = h }
counted_down next p p' r (q ∷ qs) h = Drops-same _

absent_ref :
    (l : TrieLevel) (s q : Bytes) (qs : List Bytes)
    → refs_of (child l s) ≡ 0
    → Drops (same_path (s ∷ []) (q ∷ qs)) (face_at l q qs) (face_at l q qs)
unfolding same_path node_at
absent_ref l s q [] none_there = elim (Bool-cases (same_bytes s q)) [
  | inl hit ↦ let e : s ≡ q = same_bytes_sound s q hit in Drops-nothing _ _ (rw (← e) none_there)
  | inr miss ↦ rw miss (Drops-same _)
]
absent_ref l s q (r ∷ rs) none_there = elim (Bool-cases (same_bytes s q)) [
  | inl hit ↦ rw hit (Drops-same _)
  | inr miss ↦ rw miss (Drops-same _)
]

Drops-remove_ref :
    (l : TrieLevel) (s q : Bytes) (qs : List Bytes) (c : TrieNode)
    → is_there l ≡ true
    → child l s ≡ c
    → Drops (same_path (s ∷ []) (q ∷ qs)) (face_at l q qs) (face_at (remove_ref l s c).0 q qs)
unfolding remove_ref
Drops-remove_ref l s q qs nil_node there e = absent_ref l s q qs (rw e refl)
Drops-remove_ref l s q qs (node next p r) there e = elim (Bool-cases (r == 0)) [
  | inl none_left ↦ rw none_left (absent_ref l s q qs (rw e (ground arith)))
  | inr some_left ↦ elim (Bool-cases (ltb 0 (r - 1))) [
    | inl more ↦
        rw (some_left, more, set_below l s q qs (node next p (r - 1)) there)
          (by_child l s q [] qs _ (rw e (counted_down next p p r qs (λ h. refl))))
    | inr last ↦
        let zero_left : r - 1 ≡ 0 = ground arith in
        rw (some_left, last)
          (Drops-then
            (by_child l s q [] qs _
              (rw e (rw zero_left at (counted_down next p [] r qs (λ h. absurd (omega arith))))))
            (pruned l s q qs (node next [] 0) there))
  ]
]

-- Where the path ends before its last segment, there is nothing to drop.
cut_short :
    (l : TrieLevel) (s t q : Bytes) (ss qs : List Bytes)
    → ((r : Bytes) → child (next_of (child l s)) r ≡ nil_node)
    → Drops (same_path (s ∷ t ∷ ss) (q ∷ qs)) (face_at l q qs) (face_at l q qs)
unfolding same_path node_at
cut_short l s t q ss qs nothing = elim (Bool-cases (same_bytes s q)) [
  | inr miss ↦ rw miss (Drops-same _)
  | inl hit ↦ let e : s ≡ q = same_bytes_sound s q hit in below qs e
]
  where
    below :
        (qs : List Bytes)
        → s ≡ q
        → Drops (same_path (s ∷ t ∷ ss) (q ∷ qs)) (face_at l q qs) (face_at l q qs)
    below [] e = rw (← e, same_bytes_refl s) (Drops-same _)
    below (r ∷ rs) e = Drops-nothing _ _ (rw (← e, nothing r) (ap (λ f. f.1) (face_at_nil rs)))

replaced :
    (l next' : TrieLevel) (s t q : Bytes) (ss qs : List Bytes) (next : TrieLevel) (p : Bytes)
    (r : ℕ)
    → is_there l ≡ true
    → child l s ≡ node next p r
    → ((u : Bytes) (us : List Bytes)
        → Drops (same_path (t ∷ ss) (u ∷ us)) (face_at next u us) (face_at next' u us))
    → Drops
        (same_path (s ∷ t ∷ ss) (q ∷ qs))
        (face_at l q qs)
        (face_at (prune l s (node next' p r)) q qs)
unfolding node_at same_path
replaced l next' s t q ss qs next p r there e below =
    Drops-then (by_child l s q (t ∷ ss) qs (face (node_at (node next' p r) qs)) (rw e (inside qs)))
      (pruned l s q qs (node next' p r) there)
  where
    inside :
        (qs : List Bytes)
        → Drops
            (same_path (t ∷ ss) qs)
            (face (node_at (node next p r) qs))
            (face (node_at (node next' p r) qs))
    inside [] = Drops-same _
    inside (u ∷ us) = below u us

Removes : TrieLevel → Bytes → List Bytes → Type 0
Removes l s ss =
    (q : Bytes) (qs : List Bytes)
    → Drops (same_path (s ∷ ss) (q ∷ qs)) (face_at l q qs) (face_at (remove_at (s ∷ ss) l).0 q qs)

removes_through :
    (below : TrieLevel × Bool) (l : TrieLevel) (s t : Bytes) (ss : List Bytes) (c : TrieNode)
    → is_there l ≡ true
    → child l s ≡ c
    → (is_there (next_of c) ≡ true
        → (u : Bytes) (us : List Bytes)
        → Drops (same_path (t ∷ ss) (u ∷ us)) (face_at (next_of c) u us) (face_at below.0 u us))
    → (q : Bytes) (qs : List Bytes)
    → Drops
        (same_path (s ∷ t ∷ ss) (q ∷ qs))
        (face_at l q qs)
        (face_at (remove_through below l s c).0 q qs)
unfolding remove_through
removes_through below l s t ss nil_node there e inner q qs =
    cut_short l s t q ss qs (λ r. rw e (unfold child in refl))
removes_through below l s t ss (node nil_level p r) there e inner q qs =
    cut_short l s t q ss qs (λ u. rw e (unfold child in refl))
removes_through below l s t ss (node (level ns a b) p r) there e inner q qs =
    replaced l below.0 s t q ss qs (level ns a b) p r there e (inner refl)

Removes-any : (s : Bytes) (ss : List Bytes) (l : TrieLevel) → is_there l ≡ true → Removes l s ss
unfolding Removes remove_at
Removes-any s [] l there q qs = Drops-remove_ref l s q qs (child l s) there refl
Removes-any s (t ∷ ss) l there q qs =
    removes_through _ l s t ss (child l s) there refl (Removes-any t ss (next_of (child l s))) q qs

-- `Remove` takes a reference from the node at the end of the pattern's segments, and nothing else.
pub Drops-remove_at :
    (s : Bytes) (ss : List Bytes) (l : TrieLevel) (q : Bytes) (qs : List Bytes)
    → is_there l ≡ true
    → Drops (same_path (s ∷ ss) (q ∷ qs)) (face_at l q qs) (face_at (remove_at (s ∷ ss) l).0 q qs)
unfolding Removes
Drops-remove_at s ss l q qs there = Removes-any s ss l there q qs
