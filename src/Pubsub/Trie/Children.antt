-- ===== src/Pubsub/Trie/Children.antt =====
-- The children of a level after one is set or deleted (commonspace/pubsub/trie.go).
use any_sync.Common.{◌≡◌, refl, inl, inr, Bool, true, false, if◌then◌else◌, arith, Bool-cases, ◌∙◌}
use any_sync.Pubsub.Bags.{same_bytes_refl, same_bytes_sound, same_bytes_other, same_bytes_sym}
use any_sync.Pubsub.{Bytes, wildcard_one, wildcard_tail, same_bytes}
use any_sync.Pubsub.Trie.{
  TrieLevel, nil_level, level, TrieNode, nil_node, node, Nodes, no_nodes, entry, new_level, lookup,
  store, erase, child, set_child, delete_child, is_empty,
}

lookup-store :
    (s q : Bytes) (n : TrieNode) (ns : Nodes)
    → lookup q (store s n ns) ≡ (if same_bytes s q then n else lookup q ns)
unfolding lookup store
lookup-store s q n no_nodes = refl
lookup-store s q n (entry r m ns) = elim (Bool-cases (same_bytes r s)) [
  | inl hit ↦
      let e : r ≡ s = same_bytes_sound r s hit in
      rw (hit, e)
        (elim (Bool-cases (same_bytes s q)) [ inl found ↦ rw found refl | inr lost ↦ rw lost refl ])
  | inr miss ↦ elim (Bool-cases (same_bytes r q)) [
    | inl found ↦ rw (miss, found, same_bytes_other r s miss q found) refl
    | inr lost ↦ rw (miss, lost) (lookup-store s q n ns)
  ]
]

lookup-erase :
    (s q : Bytes) (ns : Nodes)
    → lookup q (erase s ns) ≡ (if same_bytes s q then nil_node else lookup q ns)
unfolding lookup erase
lookup-erase s q no_nodes = elim (Bool-cases (same_bytes s q)) [
  | inl found ↦ rw found refl
  | inr lost ↦ rw lost refl
]
lookup-erase s q (entry r m ns) = elim (Bool-cases (same_bytes r s)) [
  | inl hit ↦
      let e : r ≡ s = same_bytes_sound r s hit in
      rw (hit, e)
        (lookup-erase s q ns ∙ elim (Bool-cases (same_bytes s q)) [
          | inl found ↦ rw found refl
          | inr lost ↦ rw lost refl
        ])
  | inr miss ↦ elim (Bool-cases (same_bytes r q)) [
    | inl found ↦ rw (miss, found, same_bytes_other r s miss q found) refl
    | inr lost ↦ rw (miss, lost) (lookup-erase s q ns)
  ]
]

-- What `child` finds, by its two tests.
child_of :
    (q : Bytes) (ns : Nodes) (a b : TrieNode) (one tail : Bool)
    → same_bytes q wildcard_one ≡ one
    → same_bytes q wildcard_tail ≡ tail
    → child (level ns a b) q ≡ (if one then a else if tail then b else lookup q ns)
unfolding child
child_of q ns a b one tail e f = rw (e, f) refl

pub child-set_child :
    (s q : Bytes) (n : TrieNode) (ns : Nodes) (a b : TrieNode)
    → child (set_child (level ns a b) s n) q
      ≡ (if same_bytes s q then n else child (level ns a b) q)
unfolding child set_child
child-set_child s q n ns a b = elim (Bool-cases (same_bytes s wildcard_one)) [
  | inl one ↦
      let e : s ≡ wildcard_one = same_bytes_sound s wildcard_one one in
      rw (one, e, same_bytes_sym wildcard_one q)
        (elim (Bool-cases (same_bytes q wildcard_one)) [
          | inl hit ↦ rw hit refl
          | inr miss ↦ rw miss refl
        ])
  | inr not_one ↦ elim (Bool-cases (same_bytes s wildcard_tail)) [
    | inl two ↦
        let e : s ≡ wildcard_tail = same_bytes_sound s wildcard_tail two in
        rw (not_one, two, e, same_bytes_sym wildcard_tail q)
          (elim (Bool-cases (same_bytes q wildcard_tail)) [
            | inl hit ↦
                let f : q ≡ wildcard_tail = same_bytes_sound q wildcard_tail hit in rw (hit, f) refl
            | inr miss ↦ rw miss refl
          ])
    | inr not_two ↦ elim (Bool-cases (same_bytes s q)) [
      | inl hit ↦
          let e : s ≡ q = same_bytes_sound s q hit in
          rw
            (not_one, not_two, hit, ← e, not_one, not_two, lookup-store s s n ns, same_bytes_refl s)
            refl
      | inr miss ↦ rw (not_one, not_two, miss, lookup-store s q n ns, miss) refl
    ]
  ]
]

pub child-delete_child :
    (s q : Bytes) (ns : Nodes) (a b : TrieNode)
    → child (delete_child (level ns a b) s) q
      ≡ (if same_bytes s q then nil_node else child (level ns a b) q)
unfolding child delete_child
child-delete_child s q ns a b = elim (Bool-cases (same_bytes s wildcard_one)) [
  | inl one ↦
      let e : s ≡ wildcard_one = same_bytes_sound s wildcard_one one in
      rw (one, e, same_bytes_sym wildcard_one q)
        (elim (Bool-cases (same_bytes q wildcard_one)) [
          | inl hit ↦ rw hit refl
          | inr miss ↦ rw miss refl
        ])
  | inr not_one ↦ elim (Bool-cases (same_bytes s wildcard_tail)) [
    | inl two ↦
        let e : s ≡ wildcard_tail = same_bytes_sound s wildcard_tail two in
        rw (not_one, two, e, same_bytes_sym wildcard_tail q)
          (elim (Bool-cases (same_bytes q wildcard_tail)) [
            | inl hit ↦
                let f : q ≡ wildcard_tail = same_bytes_sound q wildcard_tail hit in rw (hit, f) refl
            | inr miss ↦ rw miss refl
          ])
    | inr not_two ↦ elim (Bool-cases (same_bytes s q)) [
      | inl hit ↦
          let e : s ≡ q = same_bytes_sound s q hit in
          rw (not_one, not_two, hit, ← e, not_one, not_two, lookup-erase s s ns, same_bytes_refl s)
            refl
      | inr miss ↦ rw (not_one, not_two, miss, lookup-erase s q ns, miss) refl
    ]
  ]
]

pub child-new_level : (q : Bytes) → child new_level q ≡ nil_node
unfolding child lookup
child-new_level q = elim (Bool-cases (same_bytes q wildcard_one)) [
  | inl one ↦ rw one refl
  | inr not_one ↦ elim (Bool-cases (same_bytes q wildcard_tail)) [
    | inl two ↦ rw (not_one, two) refl
    | inr not_two ↦ rw (not_one, not_two) refl
  ]
]

-- An empty level has no children.
pub child-is_empty : (l : TrieLevel) (q : Bytes) → is_empty l ≡ true → child l q ≡ nil_node
unfolding child
child-is_empty nil_level q h = refl
child-is_empty (level no_nodes nil_node nil_node) q h = child-new_level q
child-is_empty (level (entry s n ns) a b) q h = cc
child-is_empty (level no_nodes (node l p r) b) q h = cc
child-is_empty (level no_nodes nil_node (node l p r)) q h = cc

-- A level that is there, so a child can be set.
abbrev pub is_there : TrieLevel → Bool
is_there nil_level = false
is_there (level ns a b) = true

pub child-set :
    (l : TrieLevel) (s q : Bytes) (n : TrieNode)
    → is_there l ≡ true
    → child (set_child l s n) q ≡ (if same_bytes s q then n else child l q)
child-set nil_level s q n h = cc
child-set (level ns a b) s q n h = child-set_child s q n ns a b

pub child-delete :
    (l : TrieLevel) (s q : Bytes)
    → child (delete_child l s) q ≡ (if same_bytes s q then nil_node else child l q)
unfolding child delete_child
child-delete nil_level s q = elim (Bool-cases (same_bytes s q)) [
  | inl hit ↦ rw hit refl
  | inr miss ↦ rw miss refl
]
child-delete (level ns a b) s q = child-delete_child s q ns a b

pub there-set_child :
    (l : TrieLevel) (s : Bytes) (n : TrieNode)
    → is_there l ≡ true
    → is_there (set_child l s n) ≡ true
unfolding set_child
there-set_child nil_level s n h = cc
there-set_child (level ns a b) s n h = ground arith

pub there-delete_child :
    (l : TrieLevel) (s : Bytes) → is_there l ≡ true → is_there (delete_child l s) ≡ true
unfolding delete_child
there-delete_child nil_level s h = cc
there-delete_child (level ns a b) s h = ground arith
