-- ===== src/Pubsub/Dedup/Examples.antt =====
-- A cache of two ids.
use any_sync.Common.{◌≡◌, refl, true, false, List, [], ◌∷◌, some, arith}
use any_sync.Pubsub.{Bytes}
use any_sync.Pubsub.Dedup.{new_msg_id_dedup, repeat}
use any_sync.Pubsub.Dedup.Queue.{seen_all, remember_all, seen_all-remember_all}

abbrev id : Bytes → Bytes
id rest = 1 ∷ 2 ∷ 3 ∷ 4 ∷ 5 ∷ 6 ∷ 7 ∷ 8 ∷ 9 ∷ 10 ∷ 11 ∷ 12 ∷ 13 ∷ 14 ∷ 15 ∷ rest

abbrev first : Bytes
first = id (1 ∷ [])

abbrev second : Bytes
second = id (2 ∷ [])

abbrev third : Bytes
third = id (3 ∷ [])

abbrev ids : List Bytes
ids = first ∷ second ∷ first ∷ third ∷ first ∷ third ∷ (1 ∷ []) ∷ []

-- The third id drives out the first, and an id of one byte is never taken for seen.
ids_answered :
    seen_all (new_msg_id_dedup 2) ids
    ≡ some (false ∷ false ∷ true ∷ false ∷ false ∷ true ∷ false ∷ [])
unfolding seen_all repeat
ids_answered = refl

seen_all-remember_all_example : seen_all (new_msg_id_dedup 2) ids ≡ some (remember_all 2 [] ids)
seen_all-remember_all_example = seen_all-remember_all 2 ids (omega arith)
