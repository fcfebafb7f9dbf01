-- ===== src/Pubsub/Dedup.antt =====
-- The cache of message ids that have been seen (commonspace/pubsub/dedup.go). The lock only takes the calls
-- one after another.
pub mod Members
pub mod Queue
mod Examples
use any_sync.Common.{
  ℕ, zero, suc, Bool, true, false, not, ◌||◌, List, [], ◌∷◌, ◌++◌, Option, none, some, ◌==◌,
  if◌then◌else◌, length, get_elem?, ◌+◌,
}
use any_sync.Pubsub.{Bytes, same_bytes}

abbrev pub msg_id_len : ℕ
msg_id_len = 16

-- The map `set` is the list of its keys.
pub record MsgIdDedup : Type 0 where
  pub set : List Bytes
  pub ring : List Bytes
  pub pos : ℕ
  pub full : Bool

unfoldable pub repeat : ℕ → Bytes → List Bytes
repeat zero k = []
repeat (suc n) k = k ∷ repeat n k

abbrev pub zero_id : Bytes
zero_id = 0 ∷ 0 ∷ 0 ∷ 0 ∷ 0 ∷ 0 ∷ 0 ∷ 0 ∷ 0 ∷ 0 ∷ 0 ∷ 0 ∷ 0 ∷ 0 ∷ 0 ∷ 0 ∷ []

abbrev pub new_msg_id_dedup : ℕ → MsgIdDedup
new_msg_id_dedup size = record { set = []; ring = repeat size zero_id; pos = 0; full = false }

unfoldable pub in_set : Bytes → List Bytes → Bool
unfolding same_bytes
in_set k [] = false
in_set k (x ∷ xs) = same_bytes x k || in_set k xs

unfoldable pub delete_id : Bytes → List Bytes → List Bytes
unfolding same_bytes
delete_id k [] = []
delete_id k (x ∷ xs) = if same_bytes x k then delete_id k xs else x ∷ delete_id k xs

abbrev pub set_elem : ℕ → Bytes → List Bytes → List Bytes
set_elem i k [] = []
set_elem zero k (x ∷ xs) = k ∷ xs
set_elem (suc i) k (x ∷ xs) = x ∷ set_elem i k xs

-- What `seen` does for an id that is new, `oldest` being what the ring has at `pos`.
unfoldable pub record_id : MsgIdDedup → Bytes → Bytes → MsgIdDedup
unfolding delete_id
record_id d key oldest =
    let set' = if d.full then delete_id oldest d.set else d.set in
    let wraps = d.pos + 1 == length d.ring in
    record {
      set = key ∷ set';
      ring = set_elem d.pos key d.ring;
      pos = if wraps then 0 else d.pos + 1;
      full = if wraps then true else d.full;
    }

-- `seen`: none is the panic of an index out of range, in an empty ring.
unfoldable pub seen : MsgIdDedup → Bytes → Option (MsgIdDedup × Bool)
unfolding in_set record_id
seen d id =
    if not (length id == msg_id_len)
    then some (d, false)
    else if in_set id d.set
    then some (d, true)
    else elim (get_elem? d.ring d.pos) [
      | none ↦ none
      | some oldest ↦ some (record_id d id oldest, false)
    ]
