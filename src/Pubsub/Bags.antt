-- ===== src/Pubsub/Bags.antt =====
-- Equality of byte strings, and how often one is in a list.
use any_sync.Common.{
  ℕ, ◌≡◌, refl, sym, inl, inr, Bool, true, false, List, [], ◌∷◌, ◌++◌, if◌then◌else◌, arith,
  Bool-cases, ◌∙◌, ==_refl, ◌+◌,
}
use any_sync.Pubsub.{Bytes, same_bytes}

pub same_bytes_refl : (s : Bytes) → same_bytes s s ≡ true
unfolding same_bytes
same_bytes_refl [] = refl
same_bytes_refl (x ∷ xs) = rw (==_refl x, same_bytes_refl xs) refl

pub same_bytes_sound : (s t : Bytes) → same_bytes s t ≡ true → s ≡ t
unfolding same_bytes
same_bytes_sound [] [] h = refl
same_bytes_sound [] (y ∷ ys) h = cc
same_bytes_sound (x ∷ xs) [] h = cc
same_bytes_sound (x ∷ xs) (y ∷ ys) h =
    let here : x ≡ y = ground arith in
    let there : xs ≡ ys = same_bytes_sound xs ys (ground arith) in cc

pub same_bytes_other :
    (s t : Bytes)
    → same_bytes s t ≡ false
    → (u : Bytes) → same_bytes s u ≡ true
    → same_bytes t u ≡ false
same_bytes_other s t miss u hit = elim (Bool-cases (same_bytes t u)) [
  | inl also ↦
      let e : s ≡ u = same_bytes_sound s u hit in
      let f : t ≡ u = same_bytes_sound t u also in
      let wrong : same_bytes s t ≡ true = rw (e, f) (same_bytes_refl u) in cc
  | inr apart ↦ apart
]

pub same_bytes_sym : (s t : Bytes) → same_bytes s t ≡ same_bytes t s
same_bytes_sym s t = elim (Bool-cases (same_bytes s t)) [
  | inl hit ↦ let e = same_bytes_sound s t hit in rw e refl
  | inr miss ↦ elim (Bool-cases (same_bytes t s)) [
    | inl hit ↦ let e = same_bytes_sound t s hit in rw e refl
    | inr also ↦ miss ∙ sym also
  ]
]

unfoldable pub count_of : Bytes → List Bytes → ℕ
unfolding same_bytes
count_of q [] = 0
count_of q (p ∷ ps) = (if same_bytes p q then 1 else 0) + count_of q ps

abbrev pub one_if : Bool → ℕ
one_if true = 1
one_if false = 0

pub count_of-append :
    (q : Bytes) (ps rs : List Bytes) → count_of q (ps ++ rs) ≡ count_of q ps + count_of q rs
unfolding count_of
count_of-append q [] rs = omega arith
count_of-append q (p ∷ ps) rs = omega (arith, count_of-append q ps rs)
