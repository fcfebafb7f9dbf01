-- ===== src/Pubsub/Segments.antt =====
-- Splitting a topic into segments and joining them (commonspace/pubsub/topic.go).
use any_sync.Common.{
  ℕ, suc, zero, ◌≡◌, refl, ap, sym, inl, inr, false, List, [], ◌∷◌, ◌++◌, Option, none, some, ◌==◌,
  length, contains, arith, Bool-cases, Option-cases, All, ◌≤◌, ◌<◌, ◌∙◌,
}
use any_sync.Pubsub.{Bytes, separator, cut, split_from, split_topic, max_segments}

-- The segments with separators between them.
unfoldable pub join : List Bytes → Bytes
join [] = []
join (s ∷ []) = s
join (s ∷ t ∷ ss) = s ++ separator ∷ join (t ∷ ss)

abbrev pub IsPlain : Bytes → Type 0
IsPlain s = contains separator s ≡ false

cut-eq-some : (s a b : Bytes) → cut s ≡ some (a, b) → s ≡ a ++ separator ∷ b
unfolding cut
cut-eq-some [] a b h = cc
cut-eq-some (c ∷ cs) a b h = elim (Bool-cases (c == separator)) [
  | inl hit ↦
      let e : c ≡ separator = ground arith in
      let found : ◌≡◌ {A = Option (Bytes × Bytes)} (some ([], cs)) (some (a, b)) = rw hit at h in cc
  | inr miss ↦ elim (Option-cases (cut cs)) [
    | inl nothing ↦
        let found : ◌≡◌ {A = Option (Bytes × Bytes)} none (some (a, b)) = rw (miss, nothing) at h in
        cc
    | inr ((x, y), something) ↦
        let found : ◌≡◌ {A = Option (Bytes × Bytes)} (some (c ∷ x, y)) (some (a, b)) =
          rw (miss, something) at h in
        let later : cs ≡ x ++ separator ∷ y = cut-eq-some cs x y something in cc
  ]
]

cut_plain : (a b : Bytes) → IsPlain a → cut (a ++ separator ∷ b) ≡ some (a, b)
unfolding cut contains
cut_plain [] b p = refl
cut_plain (c ∷ cs) b p =
    let here : (c == separator) ≡ false = ground arith in
    let there : IsPlain cs = ground arith in rw (here, cut_plain cs b there) refl

cut_whole : (a : Bytes) → IsPlain a → cut a ≡ none
unfolding cut contains
cut_whole [] p = refl
cut_whole (c ∷ cs) p =
    let here : (c == separator) ≡ false = ground arith in
    let there : IsPlain cs = ground arith in rw (here, cut_whole cs there) refl

split_whole : (n : ℕ) (rest : Bytes) → cut rest ≡ none → split_from (suc n) rest ≡ rest ∷ []
unfolding split_from
split_whole n rest e = rw (e, split_from) refl

split_at :
    (n : ℕ) (rest a b : Bytes)
    → cut rest ≡ some (a, b)
    → split_from (suc n) rest ≡ a ∷ split_from n b
unfolding split_from
split_at n rest a b e = rw (e, split_from) refl

join-cons :
    (s : Bytes) (n : ℕ) (rest : Bytes)
    → join (s ∷ split_from n rest) ≡ s ++ separator ∷ join (split_from n rest)
unfolding join
join-cons s zero rest = unfold split_from in refl
join-cons s (suc n) rest = elim (Option-cases (cut rest)) [
  | inl nothing ↦ rw (split_whole n rest nothing) refl
  | inr ((a, b), something) ↦ rw (split_at n rest a b something) refl
]

join-split_from : (n : ℕ) (topic : Bytes) → join (split_from n topic) ≡ topic
unfolding join
join-split_from zero topic = unfold split_from in refl
join-split_from (suc n) topic = elim (Option-cases (cut topic)) [
  | inl nothing ↦ rw (split_whole n topic nothing) refl
  | inr ((a, b), something) ↦ rw (split_at n topic a b something) (
      join-cons a n b
      ∙ (ap (λ x. a ++ separator ∷ x) (join-split_from n b)
          ∙ sym (cut-eq-some topic a b something)))
]

-- Segments without separators are found again, if they are no more than there is room for.
pub split_from-join :
    (n : ℕ) (s : Bytes) (ss : List Bytes)
    → length ss < n
    → All IsPlain (s ∷ ss)
    → split_from n (join (s ∷ ss)) ≡ s ∷ ss
unfolding split_from join
split_from-join zero s ss room p = ground arith
split_from-join (suc n) s [] room (p, _) = split_whole n s (cut_whole s p)
split_from-join (suc n) s (t ∷ ss) room (p, ps) =
    split_at n (s ++ separator ∷ join (t ∷ ss)) s (join (t ∷ ss)) (cut_plain s (join (t ∷ ss)) p)
    ∙ ap (λ x. s ∷ x) (split_from-join n t ss (omega arith) ps)

cut-IsPlain : (s a b : Bytes) → cut s ≡ some (a, b) → IsPlain a
unfolding cut contains
cut-IsPlain [] a b h = cc
cut-IsPlain (c ∷ cs) a b h = elim (Bool-cases (c == separator)) [
  | inl hit ↦
      let found : ◌≡◌ {A = Option (Bytes × Bytes)} (some ([], cs)) (some (a, b)) = rw hit at h in
      let e : [] ≡ a = cc in rw (← e) refl
  | inr miss ↦ elim (Option-cases (cut cs)) [
    | inl nothing ↦
        let found : ◌≡◌ {A = Option (Bytes × Bytes)} none (some (a, b)) = rw (miss, nothing) at h in
        cc
    | inr ((x, y), something) ↦
        let found : ◌≡◌ {A = Option (Bytes × Bytes)} (some (c ∷ x, y)) (some (a, b)) =
          rw (miss, something) at h in
        let e : c ∷ x ≡ a = cc in
        let later : IsPlain x = cut-IsPlain cs x y something in rw (← e) (ground arith)
  ]
]

uncut-IsPlain : (s : Bytes) → cut s ≡ none → IsPlain s
unfolding cut contains
uncut-IsPlain [] h = refl
uncut-IsPlain (c ∷ cs) h = elim (Bool-cases (c == separator)) [
  | inl hit ↦ let found : ◌≡◌ {A = Option (Bytes × Bytes)} (some ([], cs)) none = rw hit at h in cc
  | inr miss ↦ elim (Option-cases (cut cs)) [
    | inl nothing ↦ let later : IsPlain cs = uncut-IsPlain cs nothing in ground arith
    | inr ((x, y), something) ↦
        let found : ◌≡◌ {A = Option (Bytes × Bytes)} (some (c ∷ x, y)) none =
          rw (miss, something) at h in
        cc
  ]
]

-- If there was room for all segments, none of them has a separator.
pub split_from-IsPlain :
    (n : ℕ) (topic : Bytes) → length (split_from n topic) ≤ n → All IsPlain (split_from n topic)
split_from-IsPlain zero topic room =
    let one : length (split_from zero topic) ≡ 1 = unfold split_from in refl in ground arith
split_from-IsPlain (suc n) topic room = elim (Option-cases (cut topic)) [
  | inl nothing ↦ rw (split_whole n topic nothing) (uncut-IsPlain topic nothing, tt)
  | inr ((a, b), something) ↦
      let fewer : suc (length (split_from n b)) ≤ suc n =
        rw (split_at n topic a b something) at room in
      rw (split_at n topic a b something)
        (cut-IsPlain topic a b something, split_from-IsPlain n b (omega arith))
]

pub split_from-positive : (n : ℕ) (topic : Bytes) → 0 < length (split_from n topic)
split_from-positive zero topic = unfold split_from in (omega arith)
split_from-positive (suc n) topic = elim (Option-cases (cut topic)) [
  | inl nothing ↦ rw (split_whole n topic nothing) (omega arith)
  | inr ((a, b), something) ↦ rw (split_at n topic a b something) (omega arith)
]

-- Joining the segments that a topic is split into gives the topic, also when they are too many.
pub join-split_topic : (topic : Bytes) → join (split_topic topic) ≡ topic
join-split_topic topic = join-split_from max_segments topic
