-- ===== src/Pubsub/Dedup/Members.antt =====
-- Which ids are in the set, and how often in a queue (commonspace/pubsub/dedup.go).
use any_sync.Common.{
  ◌≡◌, refl, inl, inr, Bool, true, false, not, ◌&&◌, ◌||◌, List, [], ◌∷◌, ◌++◌, if◌then◌else◌,
  arith, Bool-cases, ◌∙◌, ◌≤◌,
}
use any_sync.Pubsub.{Bytes, same_bytes}
use any_sync.Pubsub.Bags.{
  same_bytes_refl, same_bytes_sound, same_bytes_sym, count_of, count_of-append,
}
use any_sync.Pubsub.Dedup.{in_set, delete_id}

pub in_set-append :
    (k : Bytes) (xs ys : List Bytes) → in_set k (xs ++ ys) ≡ (in_set k xs || in_set k ys)
unfolding in_set
in_set-append k [] ys = refl
in_set-append k (x ∷ xs) ys = ground (arith, in_set-append k xs ys)

pub in_set-delete_id :
    (k o : Bytes) (xs : List Bytes)
    → in_set k (delete_id o xs) ≡ (in_set k xs && not (same_bytes o k))
unfolding in_set delete_id
in_set-delete_id k o [] = refl
in_set-delete_id k o (x ∷ xs) = elim (Bool-cases (same_bytes x o)) [
  | inl hit ↦
      let e : x ≡ o = same_bytes_sound x o hit in
      rw (hit, in_set-delete_id k o xs, e) (ground arith)
  | inr miss ↦ elim (Bool-cases (same_bytes x k)) [
    | inl found ↦
        let e : x ≡ k = same_bytes_sound x k found in
        let apart : same_bytes o k ≡ false = rw (← e, same_bytes_sym o x) miss in
        rw (miss, found, apart) refl
    | inr lost ↦ rw (miss, lost, in_set-delete_id k o xs) refl
  ]
]

pub uncounted : (k : Bytes) (xs : List Bytes) → count_of k xs ≡ 0 → in_set k xs ≡ false
unfolding in_set count_of
uncounted k [] h = refl
uncounted k (x ∷ xs) h = ground (arith, uncounted k xs)

pub not_in : (k : Bytes) (xs : List Bytes) → in_set k xs ≡ false → count_of k xs ≡ 0
unfolding in_set count_of
not_in k [] h = refl
not_in k (x ∷ xs) h = ground (arith, not_in k xs)

pub unmarked : (b : Bool) → ((false || b) && not false) ≡ b
unmarked true = refl
unmarked false = refl

-- With the oldest id dropped, one finds what one found but for that id.
pub in_set-rest :
    (o : Bytes) (rest : List Bytes) (k : Bytes)
    → count_of o (o ∷ rest) ≤ 1
    → (in_set k (o ∷ rest) && not (same_bytes o k)) ≡ in_set k rest
unfolding in_set count_of
in_set-rest o rest k h = elim (Bool-cases (same_bytes o k)) [
  | inl hit ↦
      let e : o ≡ k = same_bytes_sound o k hit in
      let self = same_bytes_refl o in
      let gone : in_set o rest ≡ false = uncounted o rest (ground arith) in rw (hit, ← e, gone) refl
  | inr miss ↦ rw miss (unmarked (in_set k rest))
]

-- The new id at the end.
pub entered_members :
    (key k : Bytes) (set rest : List Bytes)
    → in_set k set ≡ in_set k rest
    → in_set k (key ∷ set) ≡ in_set k (rest ++ key ∷ [])
unfolding in_set
entered_members key k set rest h = rw (in_set-append k rest (key ∷ [])) (ground (arith, h))

pub entered_once :
    (key k : Bytes) (rest : List Bytes)
    → in_set key rest ≡ false
    → count_of k rest ≤ 1
    → count_of k (rest ++ key ∷ []) ≤ 1
unfolding count_of
entered_once key k rest new h = elim (Bool-cases (same_bytes key k)) [
  | inl hit ↦
      let e : key ≡ k = same_bytes_sound key k hit in
      let gone : count_of k rest ≡ 0 = rw (← e) (not_in key rest new) in
      rw (count_of-append k rest (key ∷ []), hit, gone) (omega arith)
  | inr miss ↦ rw (count_of-append k rest (key ∷ []), miss) (omega arith)
]

-- The ids that stay when a new one comes.
abbrev pub kept : Bool → List Bytes → List Bytes → List Bytes
kept full back front = (if full then back else []) ++ front

abbrev pub all_of : Bool → Bytes → List Bytes → List Bytes → List Bytes
all_of full oldest back front = (if full then oldest ∷ back else []) ++ front

pub kept_members :
    (full : Bool) (oldest : Bytes) (back front set : List Bytes) (k : Bytes)
    → in_set k set ≡ in_set k (all_of full oldest back front)
    → count_of oldest (all_of full oldest back front) ≤ 1
    → in_set k (if full then delete_id oldest set else set) ≡ in_set k (kept full back front)
kept_members true oldest back front set k h one =
    in_set-delete_id k oldest set ∙ rw h (in_set-rest oldest (back ++ front) k one)
kept_members false oldest back front set k h one = h

pub kept_once :
    (full : Bool) (oldest : Bytes) (back front : List Bytes) (k : Bytes)
    → count_of k (all_of full oldest back front) ≤ 1
    → count_of k (kept full back front) ≤ 1
unfolding count_of
kept_once true oldest back front k h = omega arith
kept_once false oldest back front k h = h

pub kept_new :
    (full : Bool) (oldest : Bytes) (back front : List Bytes) (k : Bytes)
    → in_set k (all_of full oldest back front) ≡ false
    → in_set k (kept full back front) ≡ false
unfolding in_set
kept_new true oldest back front k h = ground arith
kept_new false oldest back front k h = h
