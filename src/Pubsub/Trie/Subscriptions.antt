-- ===== src/Pubsub/Trie/Subscriptions.antt =====
-- The plain list of subscriptions that the trie stands for (commonspace/pubsub/trie.go).
use any_sync.Common.{
  ℕ, ◌≡◌, refl, sym, ap, inl, inr, Bool, true, false, List, [], ◌∷◌, ◌==◌, if◌then◌else◌, arith,
  Bool-cases, Option-cases, ◌∙◌, ◌+◌, ◌-◌, ◌<◌,
}
use any_sync.Pubsub.Bags.{same_bytes_refl, same_bytes_sound, same_bytes_sym, count_of, one_if}
use any_sync.Pubsub.{Bytes, same_bytes, split_topic, split_from, cut}
use any_sync.Pubsub.Segments.{join, join-split_topic}
use any_sync.Pubsub.Trie.{PatternTrie, add_pattern, remove_pattern}
use any_sync.Pubsub.Trie.Counts.{same_path, same_path_sound, same_path_refl}

pub data Request : Type 0 where
  subscribe unsubscribe : Bytes → Request

-- The trie and its answers, request by request.
unfoldable pub handle : PatternTrie → Request → PatternTrie × Bool
unfolding add_pattern remove_pattern
handle t (subscribe p) = add_pattern t p
handle t (unsubscribe p) = remove_pattern t p

unfoldable pub handle_all : PatternTrie → List Request → PatternTrie × List Bool
unfolding handle
handle_all t [] = (t, [])
handle_all t (r ∷ rs) =
    let (t', answer) = handle t r in
    let (t'', answers) = handle_all t' rs in (t'', answer ∷ answers)

-- The same on the list of subscriptions, each as often as it was made: a request answers whether the pattern
-- has come or gone.
unfoldable pub drop_one : Bytes → List Bytes → List Bytes
unfolding same_bytes
drop_one p [] = []
drop_one p (q ∷ qs) = if same_bytes q p then qs else q ∷ drop_one p qs

unfoldable pub keep : List Bytes → Request → List Bytes × Bool
unfolding drop_one count_of
keep subs (subscribe p) = (p ∷ subs, count_of p subs == 0)
keep subs (unsubscribe p) = (drop_one p subs, count_of p subs == 1)

unfoldable pub keep_all : List Bytes → List Request → List Bytes × List Bool
unfolding keep
keep_all subs [] = (subs, [])
keep_all subs (r ∷ rs) =
    let (subs', answer) = keep subs r in
    let (subs'', answers) = keep_all subs' rs in (subs'', answer ∷ answers)

-- How many patterns there are.
unfoldable pub distinct : List Bytes → ℕ
unfolding count_of
distinct [] = 0
distinct (p ∷ ps) = one_if (count_of p ps == 0) + distinct ps

-- How often a path is that of a subscription.
unfoldable pub ends_at : List Bytes → List Bytes → ℕ
ends_at path [] = 0
ends_at path (p ∷ ps) = one_if (same_path (split_topic p) path) + ends_at path ps

pub split_some : (p : Bytes) → (s : Bytes) × (ss : List Bytes) × (split_topic p ≡ s ∷ ss)
unfolding split_from
split_some p = elim (Option-cases (cut p)) [
  | inl whole ↦ (p, [], rw (whole, split_from) refl)
  | inr ((a, b), parted) ↦ (a, split_from 15 b, rw (parted, split_from) refl)
]

pub same_path-split_topic :
    (p q : Bytes) → same_path (split_topic p) (split_topic q) ≡ same_bytes p q
same_path-split_topic p q = elim (Bool-cases (same_bytes p q)) [
  | inl same ↦
      let e : p ≡ q = same_bytes_sound p q same in rw (same, e) (same_path_refl (split_topic q))
  | inr other ↦ elim (Bool-cases (same_path (split_topic p) (split_topic q))) [
    | inl same ↦
        let e : split_topic p ≡ split_topic q =
          same_path_sound (split_topic p) (split_topic q) same in
        let f : p ≡ q = sym (join-split_topic p) ∙ ap join e ∙ join-split_topic q in
        let also : same_bytes p q ≡ true = rw f (same_bytes_refl q) in cc
    | inr apart ↦ apart ∙ sym other
  ]
]

pub ends_at-split_topic :
    (q : Bytes) (subs : List Bytes) → ends_at (split_topic q) subs ≡ count_of q subs
unfolding ends_at count_of
ends_at-split_topic q [] = refl
ends_at-split_topic q (p ∷ ps) =
    rw (same_path-split_topic p q, ends_at-split_topic q ps)
      (elim (Bool-cases (same_bytes p q)) [ inl found ↦ rw found refl | inr miss ↦ rw miss refl ])

pub ends_at-drop_one :
    (path : List Bytes) (p : Bytes) (subs : List Bytes)
    → ends_at path (drop_one p subs)
      ≡ (if same_path (split_topic p) path then ends_at path subs - 1 else ends_at path subs)
unfolding ends_at drop_one
ends_at-drop_one path p [] = ground arith
ends_at-drop_one path p (q ∷ qs) = elim (Bool-cases (same_bytes q p)) [
  | inl found ↦ let e : q ≡ p = same_bytes_sound q p found in rw (found, e) (ground arith)
  | inr miss ↦ elim (Bool-cases (same_path (split_topic p) path)) [
    | inl ends ↦
        let e : split_topic p ≡ path = same_path_sound (split_topic p) path ends in
        let apart : same_path (split_topic q) path ≡ false =
          rw (← e) (same_path-split_topic q p ∙ miss) in
        rw (miss, apart, ends_at-drop_one path p qs, ends) (omega arith)
    | inr passes ↦ rw (miss, ends_at-drop_one path p qs, passes) refl
  ]
]

count_of-drop_one :
    (q p : Bytes) (subs : List Bytes)
    → same_bytes q p ≡ false
    → count_of q (drop_one p subs) ≡ count_of q subs
unfolding count_of drop_one
count_of-drop_one q p [] apart = refl
count_of-drop_one q p (r ∷ rs) apart = elim (Bool-cases (same_bytes r p)) [
  | inl found ↦
      let e : r ≡ p = same_bytes_sound r p found in
      let other : same_bytes r q ≡ false = rw (e, same_bytes_sym p q) apart in
      rw (found, other) (omega arith)
  | inr miss ↦ rw (miss, count_of-drop_one q p rs apart) refl
]

counted-distinct : (p : Bytes) (subs : List Bytes) → 0 < count_of p subs → 0 < distinct subs
unfolding count_of distinct
counted-distinct p [] h = absurd (omega arith)
counted-distinct p (q ∷ qs) h = elim (Bool-cases (count_of q qs == 0)) [
  | inl new ↦ rw new (omega arith)
  | inr old ↦ rw old (omega (arith, counted-distinct q qs (ground arith)))
]

pub distinct-drop_one :
    (p : Bytes) (subs : List Bytes)
    → distinct (drop_one p subs)
      ≡ (if count_of p subs == 1 then distinct subs - 1 else distinct subs)
unfolding count_of distinct drop_one
distinct-drop_one p [] = refl
distinct-drop_one p (q ∷ qs) = elim (Bool-cases (same_bytes q p)) [
  | inl found ↦ let e : q ≡ p = same_bytes_sound q p found in rw (found, e) (ground arith)
  | inr miss ↦
      let same = count_of-drop_one q p qs miss in
      elim (Bool-cases (count_of p qs == 1)) [
        | inl last ↦
            let more = counted-distinct p qs (ground arith) in
            rw (miss, same, distinct-drop_one p qs, last) (ground arith)
        | inr others ↦ rw (miss, same, distinct-drop_one p qs, others) (ground arith)
      ]
]
