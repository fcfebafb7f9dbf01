-- ===== src/Tree/Examples.antt =====
-- A tree of four changes that come in the wrong order.
use any_sync.Common.{
  ℕ, ◌≡◌, inl, inr, refl, ap, Bool-cases, List, [], ◌∷◌, some, arith, ◌==◌, contains,
}
use any_sync.Common.Assoc.{get, put, delete, has_key}
use any_sync.Tree.{Change, Tree, add_changes}
use any_sync.Tree.Closed.{add_changes-IsClosed}
use any_sync.Tree.Grows.{IsClosed}
use any_sync.Tree.Settled.{IsSettled}
use any_sync.Tree.Complete.{add_changes-IsSettled}

abbrev change : ℕ → List ℕ → Change
change id previous_ids = record {
  id = id;
  previous_ids = previous_ids;
  snapshot_id = 1;
  next = [];
  previous = [];
  snapshot_counter = 0;
}

abbrev planted : Tree
planted = record {
  root = some 1;
  attached = (1, change 1 []) ∷ [];
  un_attached = [];
  wait_list = [];
  possible_roots = [];
  added_buf = [];
}

-- The changes 4 and 3 wait for 2, and 4 for 3 as well.
abbrev late : List Change
late = change 4 (3 ∷ 2 ∷ []) ∷ change 3 (2 ∷ []) ∷ change 2 (1 ∷ []) ∷ []

attached_in_order : (add_changes planted late).added_buf ≡ 2 ∷ 3 ∷ 4 ∷ []
unfolding add_changes get put delete contains has_key
attached_in_order = refl

planted-IsClosed : IsClosed planted
unfolding get
planted-IsClosed = record {
  closed = λ w. elim (Bool-cases (1 == w)) [
    | inl hit ↦ let e : 1 ≡ w = ground arith in inl (ap some e)
    | inr miss ↦ inr (rw miss tt)
  ];
}

add_changes-IsClosed_example : IsClosed (add_changes planted late)
add_changes-IsClosed_example = add_changes-IsClosed late planted planted-IsClosed

planted-IsSettled : IsSettled planted []
unfolding get
planted-IsSettled = record { keyed = λ w u h. cc; waits_for = λ w p u h. cc; blocked = λ w u h. cc }

add_changes-IsSettled_example : IsSettled (add_changes planted late) []
add_changes-IsSettled_example = add_changes-IsSettled late planted planted-IsSettled
