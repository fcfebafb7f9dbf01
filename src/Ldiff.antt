-- ===== src/Ldiff.antt =====
-- The division of the hash space in app/ldiff (hashrange.go): `genTupleRanges`, and the arithmetic of
-- `getBottomRange`. All of it is on uint64, with the wrap-around written out.
pub mod Tiling
pub mod Bottom
pub mod Diff
pub mod Exchange
mod Examples
use any_sync.Common.{ℕ, suc, zero, List, [], ◌∷◌, ◌==◌, if◌then◌else◌, ◌+◌, ◌-◌, ◌*◌, ◌/◌, ◌%◌}

-- The number of uint64 values.
abbrev pub word : ℕ
word = 18446744073709551616

abbrev pub max_uint64 : ℕ
max_uint64 = 18446744073709551615

-- `x + y`, `x - y` and `x * y` on uint64.
abbrev pub add64 : ℕ → ℕ → ℕ
add64 x y = (x + y) % word

abbrev pub sub64 : ℕ → ℕ → ℕ
sub64 x y = (x + word - y) % word

abbrev pub mul64 : ℕ → ℕ → ℕ
mul64 x y = x * y % word

pub record RangeTuple : Type 0 where
  pub from : ℕ
  pub to : ℕ

-- `((to-from)%df + 1) % df`
unfoldable pub align_of : ℕ → ℕ → ℕ → ℕ
align_of from to df = add64 (sub64 to from % df) 1 % df

-- `perRange`, after the increment that an even division needs.
unfoldable pub per_range : ℕ → ℕ → ℕ → ℕ
unfolding align_of
per_range from to df =
    let per = sub64 to from / df in if align_of from to df == 0 then add64 per 1 else per

-- The loop of `genTupleRanges`; its last range is longer by `align`.
unfoldable pub tuples : ℕ → ℕ → ℕ → ℕ → List RangeTuple
tuples zero per align j = []
tuples (suc zero) per align j = (record { from = j; to = sub64 (add64 j (add64 per align)) 1 }) ∷ []
tuples (suc (suc n)) per align j =
    (record { from = j; to = sub64 (add64 j per) 1 }) ∷ tuples (suc n) per align (add64 j per)

unfoldable pub gen_tuple_ranges : ℕ → ℕ → ℕ → List RangeTuple
unfolding tuples per_range align_of
gen_tuple_ranges from to df = tuples df (per_range from to df) (align_of from to df) from

-- `bucket` of `getBottomRange`
unfoldable pub bucket : ℕ → ℕ → ℕ → ℕ → ℕ
unfolding per_range
bucket from to df el_hash = sub64 el_hash from / per_range from to df

-- The tuple that `getBottomRange` looks up.
unfoldable pub bottom_tuple : ℕ → ℕ → ℕ → ℕ → RangeTuple
unfolding bucket per_range align_of
bottom_tuple from to df el_hash =
    let b = bucket from to df el_hash in
    let per = per_range from to df in
    let end = add64 (sub64 from 1) (mul64 (add64 b 1) per) in
    record {
      from = add64 from (mul64 b per);
      to = if b == sub64 df 1 then add64 end (align_of from to df) else end;
    }
