-- ===== src/Pubsub.antt =====
-- Topics and subscription patterns (commonspace/pubsub/topic.go), as lists of bytes.
pub mod Segments
pub mod Canonical
pub mod Bags
pub mod Trie
pub mod Dedup
mod Examples
use any_sync.Common.{
  ℕ, suc, zero, Bool, true, false, not, ◌&&◌, ◌||◌, List, [], ◌∷◌, ◌++◌, Option, none, some, ◌==◌,
  ltb, leb, if◌then◌else◌, length,
}

abbrev pub Bytes : Type 0
Bytes = List ℕ

abbrev pub max_topic_len : ℕ
max_topic_len = 256

abbrev pub max_segments : ℕ
max_segments = 16

-- The bytes of `/`, `*` and `>`.
abbrev pub separator : ℕ
separator = 47

abbrev pub star : ℕ
star = 42

abbrev pub tail : ℕ
tail = 62

abbrev pub wildcard_one : Bytes
wildcard_one = star ∷ []

abbrev pub wildcard_tail : Bytes
wildcard_tail = tail ∷ []

abbrev pub acc_namespace : Bytes
acc_namespace = 97 ∷ 99 ∷ 99 ∷ []

-- What stands before and after the first separator.
unfoldable pub cut : Bytes → Option (Bytes × Bytes)
cut [] = none
cut (c ∷ cs) =
    let rest = cut cs in
    if c == separator
    then some ([], cs)
    else elim rest [ none ↦ none | some (before, after) ↦ some (c ∷ before, after) ]

-- The loop of `splitTopic`, with `n` segments to go; what is left over is one segment.
unfoldable pub split_from : ℕ → Bytes → List Bytes
unfolding cut
split_from zero rest = rest ∷ []
split_from (suc n) rest = elim (cut rest) [
  | none ↦ rest ∷ []
  | some (before, after) ↦ before ∷ split_from n after
]

abbrev pub split_topic : Bytes → List Bytes
split_topic topic = split_from max_segments topic

abbrev pub is_empty_segment : Bytes → Bool
is_empty_segment [] = true
is_empty_segment (c ∷ cs) = false

unfoldable pub no_empty : List Bytes → Bool
no_empty [] = true
no_empty (s ∷ ss) = not (is_empty_segment s) && no_empty ss

-- `validateSegments`: false is `ErrInvalidTopic`, the only error.
unfoldable pub validate_segments : Bytes → List Bytes → Bool
unfolding no_empty
validate_segments topic segs =
    not (length topic == 0 || ltb max_topic_len (length topic))
    && leb (length segs) max_segments
    && no_empty segs

-- `strings.ContainsAny(s, "*>")`
unfoldable pub contains_wildcard : Bytes → Bool
contains_wildcard [] = false
contains_wildcard (c ∷ cs) = c == star || c == tail || contains_wildcard cs

unfoldable pub no_wildcards : List Bytes → Bool
unfolding contains_wildcard
no_wildcards [] = true
no_wildcards (s ∷ ss) = not (contains_wildcard s) && no_wildcards ss

unfoldable pub validate_topic : Bytes → Bool
unfolding validate_segments no_wildcards split_from
validate_topic topic =
    validate_segments topic (split_topic topic) && no_wildcards (split_topic topic)

unfoldable pub same_bytes : Bytes → Bytes → Bool
same_bytes [] [] = true
same_bytes (x ∷ xs) (y ∷ ys) = x == y && same_bytes xs ys
same_bytes _ _ = false

abbrev pub is_last : List Bytes → Bool
is_last [] = true
is_last (s ∷ ss) = false

-- The loop of `ValidatePattern`.
unfoldable pub wildcards_in_place : List Bytes → Bool
unfolding same_bytes contains_wildcard
wildcards_in_place [] = true
wildcards_in_place (s ∷ ss) =
    (same_bytes s wildcard_one
      || (if same_bytes s wildcard_tail then is_last ss else not (contains_wildcard s)))
    && wildcards_in_place ss

unfoldable pub validate_pattern : Bytes → Bool
unfolding validate_segments wildcards_in_place split_from
validate_pattern pattern =
    validate_segments pattern (split_topic pattern) && wildcards_in_place (split_topic pattern)

abbrev pub last_or_empty : List Bytes → Bytes
last_or_empty [] = []
last_or_empty (s ∷ []) = s
last_or_empty (s ∷ t ∷ ss) = last_or_empty (t ∷ ss)

-- `TopicOwner`
unfoldable pub owner_of : List Bytes → Bytes
unfolding same_bytes
owner_of [] = []
owner_of (s ∷ []) = []
owner_of (s ∷ t ∷ ss) = if same_bytes s acc_namespace then last_or_empty (t ∷ ss) else []

unfoldable pub topic_owner : Bytes → Bytes
unfolding owner_of split_from
topic_owner topic = owner_of (split_topic topic)
