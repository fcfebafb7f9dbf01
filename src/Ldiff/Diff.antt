-- ===== src/Ldiff/Diff.antt =====
-- The comparison of two containers range by range (app/ldiff/diff.go). Ids, heads and hashes are
-- numbers; the order of heads is an argument, and so is what reads a range of a container, which
-- stands on a skip list.
pub mod Reports
mod Lookup
mod Mine
mod Theirs
pub mod Compare
pub mod Rounds
use any_sync.Common.{
  ℕ, Bool, true, false, not, ◌&&◌, ◌||◌, List, [], ◌∷◌, ◌++◌, Option, none, some, map, ◌==◌, leb,
  if◌then◌else◌, length,
}
use any_sync.Common.Assoc.{Assoc, get, put}
use any_sync.Ldiff.{RangeTuple, gen_tuple_ranges}

pub record Element : Type 0 where
  pub id : ℕ
  pub head : ℕ

pub record Range : Type 0 where
  pub from : ℕ
  pub to : ℕ
  pub elements : Bool

-- The empty or nil hash is 0.
pub record RangeResult : Type 0 where
  pub hash : ℕ
  pub elements : List Element
  pub count : ℕ

-- `diffCtx`, without the slices that one round reads.
pub record DiffCtx : Type 0 where
  pub new_ids : List ℕ
  pub changed_ids : List ℕ
  pub their_changed_ids : List ℕ
  pub removed_ids : List ℕ
  pub prepare : List Range

abbrev pub report_new : DiffCtx → ℕ → DiffCtx
report_new ctx id = record ctx { new_ids = ctx.new_ids ++ id ∷ [] }

abbrev pub report_changed : DiffCtx → ℕ → DiffCtx
report_changed ctx id = record ctx { changed_ids = ctx.changed_ids ++ id ∷ [] }

abbrev pub report_their_changed : DiffCtx → ℕ → DiffCtx
report_their_changed ctx id = record ctx { their_changed_ids = ctx.their_changed_ids ++ id ∷ [] }

abbrev pub report_removed : DiffCtx → ℕ → DiffCtx
report_removed ctx id = record ctx { removed_ids = ctx.removed_ids ++ id ∷ [] }

-- `toMap`: an id that comes again overwrites.
unfoldable pub put_all : Assoc ℕ → List Element → Assoc ℕ
put_all m [] = m
put_all m (e ∷ es) = put_all (put e.id e.head m) es

abbrev pub to_map : List Element → Assoc ℕ
to_map els = put_all [] els

-- The first loop of `compareElementsEqual`.
unfoldable pub mine_equal : Assoc ℕ → DiffCtx → List Element → DiffCtx
mine_equal other_map ctx [] = ctx
mine_equal other_map ctx (e ∷ es) =
    mine_equal other_map
      (elim (get e.id other_map) [
        | none ↦ report_removed ctx e.id
        | some head ↦ if head == e.head then ctx else report_changed ctx e.id
      ])
      es

-- Its second loop.
unfoldable pub theirs_equal : Assoc ℕ → DiffCtx → List Element → DiffCtx
theirs_equal my_map ctx [] = ctx
theirs_equal my_map ctx (e ∷ es) =
    theirs_equal my_map (elim (get e.id my_map) [ none ↦ report_new ctx e.id | some head ↦ ctx ]) es

unfoldable pub compare_elements_equal : DiffCtx → List Element → List Element → DiffCtx
unfolding mine_equal theirs_equal put_all
compare_elements_equal ctx my other =
    theirs_equal (to_map my) (mine_equal (to_map other) ctx my) other

-- The `find` of `compareElementsGreater`: the head of the first element with that id.
unfoldable pub find_head : List Element → ℕ → Option ℕ
find_head [] id = none
find_head (e ∷ es) id = if e.id == id then some e.head else find_head es id

module _ (greater : ℕ → ℕ → Bool) where
  unfoldable pub mine_greater : List Element → DiffCtx → List Element → DiffCtx
  unfolding find_head
  mine_greater other ctx [] = ctx
  mine_greater other ctx (e ∷ es) =
      mine_greater other
        (elim (find_head other e.id) [
          | none ↦ report_removed ctx e.id
          | some head ↦
              if head == e.head
              then ctx
              else if greater head e.head
              then report_their_changed ctx e.id
              else report_changed ctx e.id
        ])
        es

unfoldable pub theirs_greater : List Element → DiffCtx → List Element → DiffCtx
unfolding find_head
theirs_greater my ctx [] = ctx
theirs_greater my ctx (e ∷ es) =
    theirs_greater my (elim (find_head my e.id) [ none ↦ report_new ctx e.id | some head ↦ ctx ]) es

unfoldable pub compare_elements_greater :
    (ℕ → ℕ → Bool) → DiffCtx → List Element → List Element → DiffCtx
unfolding mine_greater theirs_greater
compare_elements_greater greater ctx my other =
    theirs_greater my (mine_greater greater other ctx my) other

abbrev pub is_nil : List Element → Bool
is_nil [] = true
is_nil (e ∷ es) = false

-- `hashRange`, without the pointer to its parent.
pub record HashRange : Type 0 where
  pub from : ℕ
  pub to : ℕ
  pub is_divided : Bool
  pub elements : ℕ
  pub level : ℕ
  pub hash : ℕ

-- `getRange`, given what the map of ranges has for `r`, and the elements of the skip list in `r`.
unfoldable pub get_range : Option HashRange → List Element → Range → RangeResult
get_range none els r = record { hash = 0; elements = els; count = length els }
get_range (some rng) els r =
    if r.elements
    then record { hash = rng.hash; elements = els; count = length els }
    else record { hash = rng.hash; elements = []; count = rng.elements }

-- `len(r.Elements) == r.Count`
abbrev pub is_full : RangeResult → Bool
is_full r = length r.elements == r.count

abbrev pub undivided : RangeTuple → Range
undivided t = record { from = t.from; to = t.to; elements = false }

abbrev pub prepared : DiffCtx → List Range → DiffCtx
prepared ctx rs = record ctx { prepare = ctx.prepare ++ rs }

module _ (divide_factor compare_threshold : ℕ) (my_range : Range → RangeResult)
    (compare : DiffCtx → List Element → List Element → DiffCtx) where
  unfoldable pub compare_results : DiffCtx → Range → RangeResult → RangeResult → DiffCtx
  compare_results ctx r my other =
      if my.hash == other.hash
      then ctx
      else if is_full other
      then compare ctx
          (if is_full my then my.elements else (my_range (record r { elements = true })).elements)
          other.elements
      else if leb other.count compare_threshold && is_nil other.elements || is_full my
      then prepared ctx (record r { elements = true } ∷ [])
      else prepared ctx (map undivided (gen_tuple_ranges r.from r.to divide_factor))
