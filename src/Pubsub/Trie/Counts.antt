-- ===== src/Pubsub/Trie/Counts.antt =====
-- What the nodes of the trie hold after `Add` (commonspace/pubsub/trie.go).
use any_sync.Common.{
  ℕ, ◌≡◌, refl, inl, inr, Bool, true, false, ◌&&◌, List, [], ◌∷◌, if◌then◌else◌, arith, Bool-cases,
  ◌∙◌, ◌+◌,
}
use any_sync.Pubsub.Bags.{same_bytes_refl, same_bytes_sound}
use any_sync.Pubsub.{Bytes, same_bytes}
use any_sync.Pubsub.Trie.{
  TrieLevel, nil_level, level, TrieNode, nil_node, node, child, set_child, next_of, pattern_of,
  refs_of, enter, with_next, add_ref, add_at, node_at,
}
use any_sync.Pubsub.Trie.Children.{child-set, child-new_level, is_there, there-set_child}

-- What a node says of the pattern that ends there.
abbrev pub Face : Type 0
Face = Bytes × ℕ

abbrev pub face : TrieNode → Face
face n = (pattern_of n, refs_of n)

-- The face at the end of a path below a level.
abbrev pub face_at : TrieLevel → Bytes → List Bytes → Face
face_at l q qs = face (node_at (child l q) qs)

unfoldable pub same_path : List Bytes → List Bytes → Bool
unfolding same_bytes
same_path [] [] = true
same_path (s ∷ ss) (t ∷ ts) = same_bytes s t && same_path ss ts
same_path _ _ = false

pub same_path_sound : (ss ts : List Bytes) → same_path ss ts ≡ true → ss ≡ ts
unfolding same_path
same_path_sound [] [] h = refl
same_path_sound [] (t ∷ ts) h = cc
same_path_sound (s ∷ ss) [] h = cc
same_path_sound (s ∷ ss) (t ∷ ts) h =
    let here : s ≡ t = same_bytes_sound s t (ground arith) in
    let there : ss ≡ ts = same_path_sound ss ts (ground arith) in cc

pub same_path_refl : (ss : List Bytes) → same_path ss ss ≡ true
unfolding same_path
same_path_refl [] = refl
same_path_refl (s ∷ ss) = rw (same_bytes_refl s, same_path_refl ss) refl

enter-face : (c : TrieNode) → face (enter c) ≡ face c
enter-face nil_node = refl
enter-face (node nil_level p r) = refl
enter-face (node (level ns a b) p r) = refl

enter-child : (c : TrieNode) (q : Bytes) → child (next_of (enter c)) q ≡ child (next_of c) q
enter-child nil_node q = child-new_level q ∙ (unfold child in refl)
enter-child (node nil_level p r) q = child-new_level q ∙ (unfold child in refl)
enter-child (node (level ns a b) p r) q = refl

enter-there : (c : TrieNode) → is_there (next_of (enter c)) ≡ true
enter-there nil_node = refl
enter-there (node nil_level p r) = refl
enter-there (node (level ns a b) p r) = refl

next-with_next : (c : TrieNode) (l : TrieLevel) → next_of (with_next l (enter c)) ≡ l
next-with_next nil_node l = refl
next-with_next (node nil_level p r) l = refl
next-with_next (node (level ns a b) p r) l = refl

face-with_next : (c : TrieNode) (l : TrieLevel) → face (with_next l (enter c)) ≡ face c
face-with_next nil_node l = refl
face-with_next (node nil_level p r) l = refl
face-with_next (node (level ns a b) p r) l = refl

face-add_ref : (p : Bytes) (c : TrieNode) → face (add_ref p (enter c)) ≡ (p, refs_of c + 1)
face-add_ref p nil_node = refl
face-add_ref p (node nil_level q r) = refl
face-add_ref p (node (level ns a b) q r) = refl

next-add_ref : (p : Bytes) (c : TrieNode) → next_of (add_ref p (enter c)) ≡ next_of (enter c)
next-add_ref p nil_node = refl
next-add_ref p (node nil_level q r) = refl
next-add_ref p (node (level ns a b) q r) = refl

-- At the node where the pattern ends.
added_here :
    (p : Bytes) (c : TrieNode) (qs : List Bytes)
    → face (node_at (add_ref p (enter c)) qs)
      ≡ (if same_path [] qs then (p, refs_of (node_at c qs) + 1) else face (node_at c qs))
unfolding node_at same_path
added_here p c [] = face-add_ref p c
added_here p c (q ∷ qs) = rw (next-add_ref p c, enter-child c q) refl

-- At a node that the path comes through.
through_here :
    (p s : Bytes) (ss : List Bytes) (c : TrieNode) (qs : List Bytes)
    → ((q : Bytes) (rest : List Bytes)
        → face_at (add_at p (s ∷ ss) (next_of (enter c))) q rest ≡ (
            if same_path (s ∷ ss) (q ∷ rest)
            then (p, (face_at (next_of (enter c)) q rest).1 + 1)
            else face_at (next_of (enter c)) q rest))
    → face (node_at (with_next (add_at p (s ∷ ss) (next_of (enter c))) (enter c)) qs)
      ≡ (if same_path (s ∷ ss) qs then (p, refs_of (node_at c qs) + 1) else face (node_at c qs))
unfolding node_at same_path
through_here p s ss c [] below = face-with_next c _
through_here p s ss c (q ∷ qs) below =
    rw (next-with_next c (add_at p (s ∷ ss) (next_of (enter c))), below q qs, enter-child c q) refl

set_below :
    (l : TrieLevel) (s q : Bytes) (ss qs : List Bytes) (n : TrieNode) (p : Bytes)
    → is_there l ≡ true
    → face (node_at n qs) ≡ (
        if same_path ss qs
        then (p, refs_of (node_at (child l s) qs) + 1)
        else face (node_at (child l s) qs))
    → face_at (set_child l s n) q qs
      ≡ (if same_path (s ∷ ss) (q ∷ qs) then (p, (face_at l q qs).1 + 1) else face_at l q qs)
unfolding same_path
set_below l s q ss qs n p there here = elim (Bool-cases (same_bytes s q)) [
  | inl hit ↦
      let e : s ≡ q = same_bytes_sound s q hit in rw (child-set l s q n there, hit, here, e) refl
  | inr miss ↦ rw (child-set l s q n there, miss) refl
]

-- `Add` changes the node at the end of the pattern's segments, and no other.
pub face-add_at :
    (p s : Bytes) (ss : List Bytes) (l : TrieLevel) (q : Bytes) (qs : List Bytes)
    → is_there l ≡ true
    → face_at (add_at p (s ∷ ss) l) q qs
      ≡ (if same_path (s ∷ ss) (q ∷ qs) then (p, (face_at l q qs).1 + 1) else face_at l q qs)
unfolding add_at
face-add_at p s [] l q qs there = set_below l s q [] qs _ p there (added_here p (child l s) qs)
face-add_at p s (t ∷ ss) l q qs there = set_below l s q (t ∷ ss) qs _ p there (
    through_here p t ss (child l s) qs
      (λ r rest. face-add_at p t ss _ r rest (enter-there (child l s))))

pub there-add_at :
    (p s : Bytes) (ss : List Bytes) (l : TrieLevel)
    → is_there l ≡ true
    → is_there (add_at p (s ∷ ss) l) ≡ true
unfolding add_at
there-add_at p s [] l h = there-set_child l s _ h
there-add_at p s (t ∷ ss) l h = there-set_child l s _ h
