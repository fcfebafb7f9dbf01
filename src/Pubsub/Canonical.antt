-- ===== src/Pubsub/Canonical.antt =====
-- Which topics and patterns are valid (commonspace/pubsub/topic.go).
use any_sync.Common.{
  ℕ, ◌≡◌, ◌↔◌, refl, ap, sym, Bool, true, false, not, ◌&&◌, ◌||◌, List, [], ◌∷◌, length, contains,
  arith, ltb, leb→le, All, ◌==◌, ◌≤◌, ◌<◌, ◌∙◌,
}
use any_sync.Pubsub.{
  Bytes, separator, wildcard_tail, is_empty_segment, no_empty, contains_wildcard, no_wildcards,
  validate_segments, validate_topic, split_topic, same_bytes, wildcards_in_place, validate_pattern,
}
use any_sync.Pubsub.Segments.{
  join, IsPlain, split_from-join, split_from-IsPlain, split_from-positive, join-split_topic,
}

-- A segment is not empty, and has no separator and no wildcard in it.
abbrev pub is_segment : Bytes → Bool
is_segment s = not (is_empty_segment s) && not (contains_wildcard s) && not (contains separator s)

abbrev pub IsSegment : Bytes → Type 0
IsSegment s = is_segment s ≡ true

-- A topic in canonical form: up to 16 segments, and 256 bytes with the separators between them.
pub record IsCanonical (topic first : Bytes) (others : List Bytes) : Type 0 where
  pub joined : topic ≡ join (first ∷ others)
  pub segments : All IsSegment (first ∷ others)
  pub few : length (first ∷ others) ≤ 16
  pub short : length topic ≤ 256

segments_parts :
    (segs : List Bytes)
    → All IsSegment segs
    → (no_empty segs ≡ true) × (no_wildcards segs ≡ true) × All IsPlain segs
unfolding no_empty no_wildcards
segments_parts [] p = (refl, refl, tt)
segments_parts (s ∷ ss) (p, ps) =
    let (a, b, c) = segments_parts ss ps in (ground arith, ground arith, (ground arith, c))

parts_segments :
    (segs : List Bytes)
    → no_empty segs ≡ true
    → no_wildcards segs ≡ true
    → All IsPlain segs
    → All IsSegment segs
unfolding no_empty no_wildcards
parts_segments [] a b c = tt
parts_segments (s ∷ ss) a b (c, cs) =
    (ground arith, parts_segments ss (ground arith) (ground arith) cs)

join-positive :
    (s : Bytes) (ss : List Bytes) → is_empty_segment s ≡ false → 0 < length (join (s ∷ ss))
unfolding join
join-positive [] ss h = cc
join-positive (c ∷ cs) [] h = omega arith
join-positive (c ∷ cs) (t ∷ ss) h = omega arith

and_parts : (a b : Bool) → (a && b) ≡ true → (a ≡ true) × (b ≡ true)
and_parts true b h = (refl, h)
and_parts false b h = cc

short_of_size : (l : ℕ) → not (l == 0 || ltb 256 l) ≡ true → l ≤ 256
short_of_size l h = ground arith

size_parts :
    (topic : Bytes) (segs : List Bytes)
    → validate_segments topic segs ≡ true
    → (length topic ≤ 256) × (length segs ≤ 16) × (no_empty segs ≡ true)
unfolding validate_segments
size_parts topic segs h =
    let (both, full) = and_parts _ _ h in
    let (size, number) = and_parts _ _ both in
    (short_of_size (length topic) size, leb→le (length segs) 16 number, full)

validate_topic-IsCanonical :
    (topic : Bytes) (segs : List Bytes)
    → split_topic topic ≡ segs
    → validate_topic topic ≡ true
    → (first : Bytes) × (others : List Bytes) × IsCanonical topic first others
unfolding validate_topic
validate_topic-IsCanonical topic [] e h =
    let some_there : 0 < length {A = Bytes} [] = rw e at (split_from-positive 16 topic) in
    absurd (omega (arith, some_there))
validate_topic-IsCanonical topic (s ∷ ss) e h =
    let checked : (validate_segments topic (s ∷ ss) && no_wildcards (s ∷ ss)) ≡ true = rw e at h in
    let (structure, words) = and_parts _ _ checked in
    let (short, few, full) = size_parts topic (s ∷ ss) structure in
    let plain : All IsPlain (s ∷ ss) = rw e at (split_from-IsPlain 16 topic (rw e few)) in
    (
      s,
      ss,
      record {
        joined = sym (join-split_topic topic) ∙ ap join e;
        segments = parts_segments (s ∷ ss) full words plain;
        few = few;
        short = short;
      },
    )

IsCanonical-validate_topic :
    (topic s : Bytes) (ss : List Bytes) → IsCanonical topic s ss → validate_topic topic ≡ true
unfolding validate_topic validate_segments
IsCanonical-validate_topic topic s ss c =
    let (full, plain_words, plain) = segments_parts (s ∷ ss) c.segments in
    let few : length ss < 16 = c.few in
    let found : split_topic topic ≡ s ∷ ss =
      ap split_topic c.joined ∙ split_from-join 16 s ss few plain in
    let positive : 0 < length topic =
      rw c.joined (join-positive s ss (ground (arith, c.segments.0))) in
    rw found (ground (arith, full, plain_words, c.few, c.short))

-- A topic is valid exactly if it is up to 16 segments, none of them empty or with a separator or wildcard in
-- it, joined by separators, of up to 256 bytes in all.
pub validate_topic_iff :
    (topic : Bytes)
    → (validate_topic topic ≡ true)
      ↔ ((first : Bytes) × (others : List Bytes) × IsCanonical topic first others)
unfolding validate_topic validate_segments
validate_topic_iff topic = (
  λ h. validate_topic-IsCanonical topic (split_topic topic) refl h,
  λ (s, ss, c). IsCanonical-validate_topic topic s ss c,
)

same_bytes-tail : (s : Bytes) → contains_wildcard s ≡ false → same_bytes s wildcard_tail ≡ false
unfolding contains_wildcard same_bytes
same_bytes-tail [] h = refl
same_bytes-tail (c ∷ cs) h = ground arith

wildcards_in_place_of_none :
    (segs : List Bytes) → no_wildcards segs ≡ true → wildcards_in_place segs ≡ true
unfolding no_wildcards wildcards_in_place
wildcards_in_place_of_none [] h = refl
wildcards_in_place_of_none (s ∷ ss) h =
    let plain : contains_wildcard s ≡ false = ground arith in
    let rest : wildcards_in_place ss ≡ true = wildcards_in_place_of_none ss (ground arith) in
    rw (same_bytes-tail s plain, plain, rest) (ground arith)

-- A valid topic is also a valid subscription pattern.
pub validate_pattern_of_topic :
    (topic : Bytes) → validate_topic topic ≡ true → validate_pattern topic ≡ true
unfolding validate_topic validate_pattern
validate_pattern_of_topic topic h =
    let (structure, words) =
      and_parts (validate_segments topic (split_topic topic)) (no_wildcards (split_topic topic))
        h in
    rw (structure, wildcards_in_place_of_none (split_topic topic) words) refl
