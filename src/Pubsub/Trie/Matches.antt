-- ===== src/Pubsub/Trie/Matches.antt =====
-- What `Match` collects below a node (commonspace/pubsub/trie.go).
use any_sync.Common.{
  ◌≡◌, refl, sym, ap, ◌⊎◌, inl, inr, Bool, true, false, ◌&&◌, ◌||◌, List, [], ◌∷◌, ltb,
  if◌then◌else◌, arith, Bool-cases, Option, none, some, ◌∙◌, ◌+◌, ◌<◌,
}
use any_sync.Pubsub.Bags.{
  same_bytes_refl, same_bytes_sound, same_bytes_sym, count_of, one_if, count_of-append,
}
use any_sync.Pubsub.{
  Bytes, same_bytes, wildcard_one, wildcard_tail, no_wildcards, contains_wildcard, is_last,
}
use any_sync.Pubsub.Trie.{
  TrieLevel, nil_level, level, TrieNode, nil_node, node, child, literal, next_of, pattern_of,
  refs_of, node_at, append_live, fwc_of, pwc_of, match_node,
}

-- The segments of a pattern cover those of a topic: `>` at the end covers one or more, `*` covers one, and
-- any other segment itself.
unfoldable pub covers : List Bytes → List Bytes → Bool
unfolding same_bytes
covers [] [] = true
covers [] (t ∷ ts) = false
covers (s ∷ ss) [] = false
covers (s ∷ ss) (t ∷ ts) =
    if same_bytes s wildcard_tail
    then is_last ss
    else (same_bytes s wildcard_one || same_bytes s t) && covers ss ts

-- What is left of a path below the child for `s`.
unfoldable pub below : Bytes → Option (List Bytes) → Option (List Bytes)
unfolding same_bytes
below s none = none
below s (some []) = none
below s (some (x ∷ xs)) = if same_bytes x s then some xs else none

-- Whether a pattern ends at the path below the node, and covers the topic.
unfoldable pub hit : TrieNode → Option (List Bytes) → List Bytes → Bool
unfolding node_at covers
hit n none ts = false
hit n (some path) ts = ltb 0 (refs_of (node_at n path)) && covers path ts

-- Each pattern of the nodes below `n` has the path of its node as key; and keys tell patterns apart.
abbrev pub Named : (Bytes → Option (List Bytes)) → TrieNode → Type 0
Named key n =
    (path : List Bytes)
    → 0 < refs_of (node_at n path)
    → key (pattern_of (node_at n path)) ≡ some path

abbrev pub Telling : (Bytes → Option (List Bytes)) → Type 0
Telling key = (p q : Bytes) (path : List Bytes) → key p ≡ some path → key q ≡ some path → p ≡ q

below-eq-some :
    (s : Bytes) (o : Option (List Bytes)) (xs : List Bytes)
    → below s o ≡ some xs
    → o ≡ some (s ∷ xs)
unfolding below
below-eq-some s none xs h = cc
below-eq-some s (some []) xs h = cc
below-eq-some s (some (y ∷ ys)) xs h = elim (Bool-cases (same_bytes y s)) [
  | inl found ↦
      let e : y ≡ s = same_bytes_sound y s found in
      let f : ◌≡◌ {A = Option (List Bytes)} (some ys) (some xs) = rw found at h in cc
  | inr lost ↦ let f : ◌≡◌ {A = Option (List Bytes)} none (some xs) = rw lost at h in cc
]

below_self : (s : Bytes) (xs : List Bytes) → below s (some (s ∷ xs)) ≡ some xs
unfolding below
below_self s xs = rw (same_bytes_refl s) refl

Telling-below :
    (key : Bytes → Option (List Bytes)) (s : Bytes) → Telling key → Telling (λ p. below s (key p))
Telling-below key s tells p q path hp hq =
    tells p q (s ∷ path) (below-eq-some s (key p) path hp) (below-eq-some s (key q) path hq)

Named-child :
    (key : Bytes → Option (List Bytes)) (n : TrieNode) (s : Bytes)
    → Named key n
    → Named (λ p. below s (key p)) (child (next_of n) s)
unfolding node_at
Named-child key n s named path live = ap (below s) (named (s ∷ path) live) ∙ below_self s path

-- With no segments left, only the node itself can end a pattern.
hit_dead : (n : TrieNode) (o : Option (List Bytes)) → refs_of n ≡ 0 → hit n o [] ≡ false
unfolding hit node_at covers
hit_dead n none e = refl
hit_dead n (some []) e = rw e refl
hit_dead n (some (x ∷ xs)) e = ground arith

hit_end :
    (n : TrieNode) (o : Option (List Bytes)) → 0 < refs_of n → (o ≡ some []) ⊎ (hit n o [] ≡ false)
unfolding hit node_at covers
hit_end n none live = inr refl
hit_end n (some []) live = inl refl
hit_end n (some (x ∷ xs)) live = inr (ground arith)

hit_live : (n : TrieNode) → 0 < refs_of n → hit n (some []) [] ≡ true
unfolding hit node_at covers
hit_live n live = ground arith

live_count :
    (key : Bytes → Option (List Bytes)) (n : TrieNode) (q : Bytes)
    → Named key n
    → Telling key
    → 0 < refs_of n
    → (if same_bytes (pattern_of n) q then 1 else 0) ≡ one_if (hit n (key q) [])
unfolding node_at
live_count key n q named tells live =
    let own : key (pattern_of n) ≡ some [] = named [] live in
    elim (Bool-cases (same_bytes (pattern_of n) q)) [
      | inl same ↦
          let e : pattern_of n ≡ q = same_bytes_sound (pattern_of n) q same in
          let its : key q ≡ some [] = ap key (sym e) ∙ own in rw (same, its, hit_live n live) refl
      | inr other ↦ elim (hit_end n (key q) live) [
        | inl its ↦
            let e : pattern_of n ≡ q = tells (pattern_of n) q [] own its in
            let same : same_bytes (pattern_of n) q ≡ true =
              ap (same_bytes (pattern_of n)) (sym e) ∙ same_bytes_refl (pattern_of n) in
            cc
        | inr missed ↦ rw (other, missed) refl
      ]
    ]

count_of-append_live :
    (key : Bytes → Option (List Bytes)) (n : TrieNode) (dst : List Bytes) (q : Bytes)
    → Named key n
    → Telling key
    → count_of q (append_live n dst) ≡ count_of q dst + one_if (hit n (key q) [])
unfolding count_of
count_of-append_live key nil_node dst q named tells =
    rw (hit_dead nil_node (key q) refl) (omega arith)
count_of-append_live key (node l p r) dst q named tells = elim (Bool-cases (ltb 0 r)) [
  | inl live ↦
      let now = live_count key (node l p r) q named tells (ground arith) in
      rw live (count_of-append q dst (p ∷ []) ∙ omega (arith, now))
  | inr dead ↦ rw (dead, hit_dead (node l p r) (key q) (ground arith)) (omega arith)
]

fwc_of-child : (l : TrieLevel) → fwc_of l ≡ child l wildcard_tail
unfolding child
fwc_of-child nil_level = refl
fwc_of-child (level ns a b) = refl

pwc_of-child : (l : TrieLevel) → pwc_of l ≡ child l wildcard_one
unfolding child
pwc_of-child nil_level = refl
pwc_of-child (level ns a b) = refl

-- A segment without wildcards is neither of the two.
plain_segment :
    (t : Bytes)
    → contains_wildcard t ≡ false
    → (same_bytes t wildcard_one ≡ false) × (same_bytes t wildcard_tail ≡ false)
unfolding contains_wildcard same_bytes
plain_segment [] h = (refl, refl)
plain_segment (c ∷ cs) h = (ground arith, ground arith)

literal-child : (l : TrieLevel) (t : Bytes) → contains_wildcard t ≡ false → literal l t ≡ child l t
unfolding child literal
literal-child nil_level t h = refl
literal-child (level ns a b) t h = let (one, tail) = plain_segment t h in rw (one, tail) refl

covers_end : (xs : List Bytes) → covers xs [] ≡ is_last xs
unfolding covers
covers_end [] = refl
covers_end (x ∷ xs) = refl

-- The three branches of `matchLevel` find what there is to find, and none twice.
branches :
    (n : TrieNode) (t : Bytes) (ts : List Bytes) (o : Option (List Bytes))
    → contains_wildcard t ≡ false
    → one_if (hit (child (next_of n) wildcard_tail) (below wildcard_tail o) [])
        + one_if (hit (child (next_of n) wildcard_one) (below wildcard_one o) ts)
        + one_if (hit (child (next_of n) t) (below t o) ts)
      ≡ one_if (hit n o (t ∷ ts))
unfolding hit below covers node_at
branches n t ts none plain = refl
branches n t ts (some []) plain = ground arith
branches n t ts (some (x ∷ xs)) plain =
    let (t_one, t_tail) = plain_segment t plain in
    elim (Bool-cases (same_bytes x wildcard_tail)) [
      | inl tail ↦
          let e : x ≡ wildcard_tail = same_bytes_sound x wildcard_tail tail in
          let apart : same_bytes wildcard_tail t ≡ false =
            same_bytes_sym wildcard_tail t ∙ t_tail in
          rw (tail, e, apart, covers_end xs) (omega arith)
      | inr not_tail ↦ elim (Bool-cases (same_bytes x wildcard_one)) [
        | inl one ↦
            let e : x ≡ wildcard_one = same_bytes_sound x wildcard_one one in
            let apart : same_bytes wildcard_one t ≡ false = same_bytes_sym wildcard_one t ∙ t_one in
            rw (not_tail, one, e, apart) (omega arith)
        | inr not_one ↦ elim (Bool-cases (same_bytes x t)) [
          | inl same ↦
              let e : x ≡ t = same_bytes_sound x t same in
              rw (not_tail, not_one, same, e) (omega arith)
          | inr other ↦ rw (not_tail, not_one, other) (ground arith)
        ]
      ]
    ]

-- How often a pattern is among the matches below a node.
pub count_of-match_node :
    (ts : List Bytes) (key : Bytes → Option (List Bytes)) (n : TrieNode) (dst : List Bytes)
    (q : Bytes)
    → no_wildcards ts ≡ true
    → Named key n
    → Telling key
    → count_of q (match_node ts n dst) ≡ count_of q dst + one_if (hit n (key q) ts)
unfolding match_node no_wildcards
count_of-match_node [] key n dst q plain named tells = count_of-append_live key n dst q named tells
count_of-match_node (t ∷ ts) key n dst q plain named tells =
    let l = next_of n in
    let t_plain : contains_wildcard t ≡ false = ground arith in
    let rest : no_wildcards ts ≡ true = ground arith in
    let here = λ (s : Bytes). Named-child key n s named in
    let keys = λ (s : Bytes). Telling-below key s tells in
    let tail =
      count_of-append_live (λ p. below wildcard_tail (key p)) (child l wildcard_tail) dst q
        (here wildcard_tail) (keys wildcard_tail) in
    let one =
      count_of-match_node ts (λ p. below wildcard_one (key p)) (child l wildcard_one)
        (append_live (child l wildcard_tail) dst) q rest (here wildcard_one) (keys wildcard_one) in
    let lit =
      count_of-match_node ts (λ p. below t (key p)) (child l t)
        (match_node ts (child l wildcard_one) (append_live (child l wildcard_tail) dst)) q rest
        (here t) (keys t) in
    rw (fwc_of-child l, pwc_of-child l, literal-child l t t_plain)
      (omega (arith, tail, one, lit, branches n t ts (key q) t_plain))
