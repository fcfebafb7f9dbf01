-- ===== src/Ldiff/Bottom.antt =====
-- Where `getBottomRange` (app/ldiff/hashrange.go) finds the range of an element's hash.
use native.Mathlib.Nat.{
  div-add-mod, mod-lt, mul-le-mul_right, mul-lt-mul_of_pos_right, lt_of_mul-lt-mul_right,
}
use any_sync.Common.{
  ℕ, suc, zero, ◌≡◌, ◌≢◌, ◌⊎◌, inl, inr, refl, ap, ap₂, some, arith, ◌==◌, if◌then◌else◌, get_elem?,
  Bool-cases, ◌+◌, ◌-◌, ◌*◌, ◌/◌, ◌%◌, ◌≤◌, ◌<◌,
}
use any_sync.Ldiff.{
  word, max_uint64, RangeTuple, align_of, per_range, tuples, gen_tuple_ranges, bucket, bottom_tuple,
}
use any_sync.Ldiff.Tiling.{parts_add_up}

get_elem-tuples :
    (n per align j i to a b : ℕ)
    → 0 < per
    → to < word
    → suc n * per + align + j ≡ suc to
    → j + i * per ≡ a
    → ((i ≡ n) × (b ≡ to)) ⊎ ((i < n) × (a + per ≡ suc b))
    → get_elem? (tuples (suc n) per align j) i ≡ some (record { from = a; to = b })
unfolding tuples
get_elem-tuples zero per align j zero to a b p w e f g =
    ap₂ (λ x y. some (record { from = x; to = y })) (omega arith) (ground arith)
get_elem-tuples zero per align j (suc i) to a b p w e f g = ground arith
get_elem-tuples (suc n) per align j zero to a b p w e f g =
    ap₂ (λ x y. some (record { from = x; to = y })) (omega arith) (ground arith)
get_elem-tuples (suc n) per align j (suc i) to a b p w e f g =
    let next : (j + per) % word ≡ j + per = omega arith in
    rw next (
      get_elem-tuples n per align (j + per) i to a b p w (omega arith) (omega arith) (ground arith))

-- The bucket of a hash is the part that it lies in.
bucket-bounds :
    (from to df h : ℕ)
    → from ≤ h
    → h ≤ to
    → to < word
    → 0 < per_range from to df
    → (bucket from to df h * per_range from to df ≤ h - from)
      × (h - from < suc (bucket from to df h) * per_range from to df)
unfolding bucket
bucket-bounds from to df h le ge w p =
    let diff : (h + word - from) % word ≡ h - from = omega arith in
    let whole : per_range from to df * ((h - from) / per_range from to df)
          + (h - from) % per_range from to df
        ≡ h - from =
      div-add-mod (h - from) (per_range from to df) in
    let small : (h - from) % per_range from to df < per_range from to df = mod-lt (h - from) p in
    rw diff (omega arith, omega arith)

-- The last value of the bucket, as `getBottomRange` computes it.
end_of_bucket :
    (from b per : ℕ)
    → 0 < per
    → b < max_uint64
    → suc b * per + from ≤ word
    → ((from + word - 1) % word + (b + 1) % word * per % word) % word ≡ suc b * per + from - 1
end_of_bucket from b per p small e =
    let no_wrap : (b + 1) % word ≡ suc b = omega arith in rw no_wrap (omega arith)

-- The tuple of a bucket, by its bounds.
bottom_tuple-eq :
    (from to df h : ℕ) {n b per align : ℕ}
    → bucket from to df h ≡ b
    → per_range from to df ≡ per
    → align_of from to df ≡ align
    → df ≡ suc n
    → b ≤ n
    → suc n < word
    → 0 < per
    → to < word
    → suc n * per + align + from ≡ suc to
    → suc b * per ≤ suc n * per
    → bottom_tuple from to df h
      ≡ record { from = from + b * per; to = if b == n then to else from + suc b * per - 1 }
unfolding bottom_tuple
bottom_tuple-eq from to df h {n} {b} {per} {align} eb ep ea ed le int p w total most =
    let last : ((from + word - 1) % word + (b + 1) % word * per % word) % word
        ≡ suc b * per + from - 1 =
      end_of_bucket from b per p (omega arith) (omega arith) in
    let index : (suc n + word - 1) % word ≡ n = omega arith in
    rw (eb, ep, ea, ed, last, index)
      (ap₂ (λ x y. record { from = x; to = y }) (omega arith)
        (elim (Bool-cases (b == n)) [
          | inl hit ↦ let e : b ≡ n = ground arith in rw (hit, e) (omega arith)
          | inr miss ↦ rw miss (omega arith)
        ]))

-- For a hash of a range of at least `df` values whose bucket is below `df`, the tuple that is looked up is
-- the one of that number among the ranges that the range is divided into, and the hash lies in it.
pub bottom_tuple-get_elem :
    (from to df h : ℕ)
    → from ≤ h
    → h ≤ to
    → to < word
    → 2 ≤ df
    → df ≤ suc (to - from)
    → df < word
    → bucket from to df h < df
    → (get_elem? (gen_tuple_ranges from to df) (bucket from to df h)
        ≡ some (bottom_tuple from to df h))
      × ((bottom_tuple from to df h).from ≤ h)
      × (h ≤ (bottom_tuple from to df h).to)
unfolding gen_tuple_ranges
bottom_tuple-get_elem from to zero h le ge w two wide int b = ground arith
bottom_tuple-get_elem from to (suc n) h le ge w two wide int b =
    let (positive, total) = parts_add_up from to (suc n) (omega arith) w two wide int in
    let (low, high) = bucket-bounds from to (suc n) h le ge w positive in
    let most : suc (bucket from to (suc n) h) * per_range from to (suc n)
        ≤ suc n * per_range from to (suc n) =
      mul-le-mul_right (per_range from to (suc n)) b in
    rw
      (bottom_tuple-eq from to (suc n) h refl refl refl refl (omega arith) int positive w total
        most)
      (elim (Bool-cases (bucket from to (suc n) h == n)) [
        | inl hit ↦
            let e : bucket from to (suc n) h ≡ n = ground arith in
            rw hit (
              get_elem-tuples n _ _ from _ to _ _ positive w total (omega arith) (inl (e, refl)),
              omega arith,
              ge,
            )
        | inr miss ↦
            let lt : bucket from to (suc n) h < n = ground arith in
            rw miss (
              get_elem-tuples n _ _ from _ to _ _ positive w total (omega arith)
                  (inr (lt, omega arith)),
              omega arith,
              omega arith,
            )
      ])

bottom_tuple-from :
    (from to df h : ℕ)
    → from + bucket from to df h * per_range from to df < word
    → (bottom_tuple from to df h).from ≡ from + bucket from to df h * per_range from to df
unfolding bottom_tuple
bottom_tuple-from from to df h small = omega arith

-- For a uint64 range of at least `df` values and a `df` of 2 or more that fits a uint64: if `df`
-- divides the range evenly, then for every hash of the range the tuple that is looked up is one
-- of the ranges that it is divided into, the one of the number of the bucket, and the hash lies
-- in it.
pub bottom_tuple_of_even :
    (from to df h : ℕ)
    → from ≤ h
    → h ≤ to
    → to < word
    → 2 ≤ df
    → df ≤ suc (to - from)
    → df < word
    → align_of from to df ≡ 0
    → (get_elem? (gen_tuple_ranges from to df) (bucket from to df h)
        ≡ some (bottom_tuple from to df h))
      × ((bottom_tuple from to df h).from ≤ h)
      × (h ≤ (bottom_tuple from to df h).to)
bottom_tuple_of_even from to df h le ge w two wide int even =
    let (positive, total) = parts_add_up from to df (omega arith) w two wide int in
    let (low, _) = bucket-bounds from to df h le ge w positive in
    let inside : bucket from to df h * per_range from to df < df * per_range from to df =
      omega arith in
    bottom_tuple-get_elem from to df h le ge w two wide int
      (lt_of_mul-lt-mul_right (per_range from to df) inside)

start_of_part :
    (n per align j i : ℕ) (t : RangeTuple)
    → 0 < per
    → suc n * per + j ≤ word
    → get_elem? (tuples (suc n) per align j) i ≡ some t
    → (i ≤ n) × (t.from ≡ j + i * per)
unfolding tuples
start_of_part zero per align j zero t p w h = ground arith
start_of_part zero per align j (suc i) t p w h = cc
start_of_part (suc n) per align j zero t p w h = ground arith
start_of_part (suc n) per align j (suc i) t p w h =
    let next : (j + per) % word ≡ j + per = omega arith in
    let (le, e) = start_of_part n per align (j + per) i t p (omega arith) (rw next at h) in
    (omega arith, omega arith)

-- For a uint64 range of at least `df` values and a `df` of 2 or more that fits a uint64: if `df`
-- does not divide the range evenly, then the tuple that is looked up for the last hash of the
-- range is none of the ranges that it is divided into.
pub bottom_tuple_of_last :
    (from to df i : ℕ) (t : RangeTuple)
    → from ≤ to
    → to < word
    → 2 ≤ df
    → df ≤ suc (to - from)
    → df < word
    → align_of from to df ≢ 0
    → get_elem? (gen_tuple_ranges from to df) i ≡ some t
    → t ≢ bottom_tuple from to df to
bottom_tuple_of_last from to zero i t le w two wide int uneven h e = omega arith
bottom_tuple_of_last from to (suc n) i t le w two wide int uneven h e =
    let (positive, total) = parts_add_up from to (suc n) le w two wide int in
    let (i_small, starts) =
      start_of_part n (per_range from to (suc n)) (align_of from to (suc n)) from i t positive
        (omega arith) (unfold gen_tuple_ranges in h) in
    let (low, high) = bucket-bounds from to (suc n) to le (omega arith) w positive in
    let beyond : suc n * per_range from to (suc n)
        < suc (bucket from to (suc n) to) * per_range from to (suc n) =
      omega arith in
    let large : suc n < suc (bucket from to (suc n) to) =
      lt_of_mul-lt-mul_right (per_range from to (suc n)) beyond in
    let apart : i * per_range from to (suc n)
        < bucket from to (suc n) to * per_range from to (suc n) =
      mul-lt-mul_of_pos_right (omega arith) positive in
    let same : t.from ≡ (bottom_tuple from to (suc n) to).from = ap (λ x. x.from) e in
    let found : (bottom_tuple from to (suc n) to).from
        ≡ from + bucket from to (suc n) to * per_range from to (suc n) =
      bottom_tuple-from from to (suc n) to (omega arith) in
    omega arith
