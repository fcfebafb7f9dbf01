-- ===== src/Pubsub/Dedup/Queue.antt =====
-- The cache is a queue of the last ids (commonspace/pubsub/dedup.go).
use any_sync.Common.{
  ℕ, zero, suc, ◌≡◌, refl, sym, ap, inl, inr, Bool, true, false, not, List, [], ◌∷◌, ◌++◌, Option,
  none, some, ◌==◌, ltb, if◌then◌else◌, length, length-append, get_elem?, arith, Bool-cases, ◌∙◌,
  ◌+◌, ◌≤◌, ◌<◌,
}
use mathlib.Core.List.{append_assoc, append-nil}
use any_sync.Pubsub.{Bytes}
use any_sync.Pubsub.Bags.{count_of}
use any_sync.Pubsub.Dedup.{
  MsgIdDedup, msg_id_len, new_msg_id_dedup, repeat, zero_id, in_set, set_elem, record_id, seen,
}
use any_sync.Pubsub.Dedup.Members.{
  entered_members, entered_once, kept, all_of, kept_members, kept_once, kept_new,
}

-- A queue of at most `size` ids, the oldest first.
unfoldable pub bounded : ℕ → List Bytes → List Bytes
bounded size [] = []
bounded size (x ∷ xs) = if ltb size (length (x ∷ xs)) then xs else x ∷ xs

unfoldable pub remember : ℕ → List Bytes → Bytes → List Bytes × Bool
unfolding bounded in_set
remember size queue id =
    if not (length id == msg_id_len)
    then (queue, false)
    else if in_set id queue
    then (queue, true)
    else (bounded size (queue ++ id ∷ []), false)

unfoldable pub remember_all : ℕ → List Bytes → List Bytes → List Bool
unfolding remember
remember_all size queue [] = []
remember_all size queue (id ∷ ids) =
    let (queue', answer) = remember size queue id in answer ∷ remember_all size queue' ids

-- The answers of `seen`, one call after another.
unfoldable pub seen_all : MsgIdDedup → List Bytes → Option (List Bool)
unfolding seen
seen_all d [] = some []
seen_all d (id ∷ ids) = elim (seen d id) [
  | none ↦ none
  | some (d', answer) ↦
      let rest = seen_all d' ids in
      elim rest [ none ↦ none | some answers ↦ some (answer ∷ answers) ]
]

-- The ring holds the newest ids before `pos`, and the oldest from there on once it is full.
pub record Represents (size : ℕ) (d : MsgIdDedup) (queue : List Bytes) : Type 0 where
  front : List Bytes
  oldest : Bytes
  back : List Bytes
  ring : d.ring ≡ front ++ oldest ∷ back
  pos : length front ≡ d.pos
  ring_size : length d.ring ≡ size
  held : queue ≡ (if d.full then oldest ∷ back else []) ++ front
  members : (k : Bytes) → in_set k d.set ≡ in_set k queue
  once : (k : Bytes) → count_of k queue ≤ 1

get_elem?-append :
    (front : List Bytes) (b : Bytes) (back : List Bytes)
    → get_elem? (front ++ b ∷ back) (length front) ≡ some b
get_elem?-append [] b back = refl
get_elem?-append (x ∷ xs) b back = get_elem?-append xs b back

set_elem-append :
    (front : List Bytes) (b k : Bytes) (back : List Bytes)
    → set_elem (length front) k (front ++ b ∷ back) ≡ front ++ k ∷ back
set_elem-append [] b k back = refl
set_elem-append (x ∷ xs) b k back = ap (λ r. x ∷ r) (set_elem-append xs b k back)

-- The ring with the new id at `pos`, and `pos` moved on.
record Turned (front back : List Bytes) (key : Bytes) (full : Bool) : Type 0 where
  front' : List Bytes
  oldest' : Bytes
  back' : List Bytes
  same : front ++ key ∷ back ≡ front' ++ oldest' ∷ back'
  pos' :
      length front'
      ≡ (if length front + 1 == length (front ++ key ∷ back) then 0 else length front + 1)
  queue' :
      (if full then back else []) ++ (front ++ key ∷ [])
      ≡ (if (if length front + 1 == length (front ++ key ∷ back) then true else full)
          then oldest' ∷ back'
          else [])
        ++ front'

nothing_either : (full : Bool) (xs : List Bytes) → (if full then [] else []) ++ xs ≡ xs
nothing_either true xs = refl
nothing_either false xs = refl

turned : (front back : List Bytes) (key : Bytes) (full : Bool) → Turned front back key full
turned front (b ∷ bs) key full =
    let on : (length front + 1 == length (front ++ key ∷ b ∷ bs)) ≡ false =
      rw (length-append front (key ∷ b ∷ bs)) (ground arith) in
    record {
      front' = front ++ key ∷ [];
      oldest' = b;
      back' = bs;
      same = sym (append_assoc front (key ∷ []) (b ∷ bs));
      pos' = rw (on, length-append front (key ∷ [])) refl;
      queue' = rw on refl;
    }
turned [] [] key full = record {
  front' = [];
  oldest' = key;
  back' = [];
  same = refl;
  pos' = refl;
  queue' = nothing_either full (key ∷ []);
}
turned (x ∷ xs) [] key full =
    let round : (length (x ∷ xs) + 1 == length ((x ∷ xs) ++ key ∷ [])) ≡ true =
      rw (length-append (x ∷ xs) (key ∷ [])) (ground arith) in
    record {
      front' = [];
      oldest' = x;
      back' = xs ++ key ∷ [];
      same = refl;
      pos' = rw round refl;
      queue' = rw round (nothing_either full _ ∙ sym (append-nil _));
    }

bounded_fits : (size : ℕ) (xs : List Bytes) → length xs ≤ size → bounded size xs ≡ xs
unfolding bounded
bounded_fits size [] h = refl
bounded_fits size (x ∷ xs) h = ground arith

bounded-kept :
    (full : Bool) (oldest key : Bytes) (back front : List Bytes) (size : ℕ)
    → length (front ++ oldest ∷ back) ≡ size
    → bounded size (all_of full oldest back front ++ key ∷ []) ≡ kept full back front ++ key ∷ []
unfolding bounded
bounded-kept true oldest key back front size h =
    let total = length-append front (oldest ∷ back) in
    let rest = length-append (back ++ front) (key ∷ []) in
    let both = length-append back front in
    let over : ltb size (length (oldest ∷ ((back ++ front) ++ key ∷ []))) ≡ true = ground arith in
    rw over refl
bounded-kept false oldest key back front size h =
    bounded_fits size (front ++ key ∷ [])
      (omega (arith, length-append front (oldest ∷ back), length-append front (key ∷ []), h))

recorded :
    (size : ℕ) (d : MsgIdDedup) (queue : List Bytes) (key : Bytes)
    → in_set key queue ≡ false
    → (r : Represents size d queue)
    → Represents size (record_id d key r.oldest) (bounded size (queue ++ key ∷ []))
unfolding record_id
recorded size d queue key new r =
    let t = turned r.front r.back key d.full in
    let ring' : set_elem d.pos key d.ring ≡ r.front ++ key ∷ r.back =
      rw (r.ring, ← r.pos) (set_elem-append r.front r.oldest key r.back) in
    let long : length d.ring ≡ length (r.front ++ key ∷ r.back) =
      rw (r.ring, length-append r.front (r.oldest ∷ r.back), length-append r.front (key ∷ r.back))
        refl in
    let fits : length (r.front ++ r.oldest ∷ r.back) ≡ size =
      ap length (sym r.ring) ∙ r.ring_size in
    let stays : bounded size (queue ++ key ∷ []) ≡ kept d.full r.back r.front ++ key ∷ [] =
      ap (λ q. bounded size (q ++ key ∷ [])) r.held
      ∙ bounded-kept d.full r.oldest key r.back r.front size fits in
    let once = λ (k : Bytes). rw r.held at (r.once k) in
    let news : in_set key (kept d.full r.back r.front) ≡ false =
      kept_new d.full r.oldest r.back r.front key (rw r.held at new) in
    rw stays (record {
      front = t.front';
      oldest = t.oldest';
      back = t.back';
      ring = ring' ∙ t.same;
      pos = t.pos' ∙ rw (long, r.pos) refl;
      ring_size = ap length ring' ∙ sym long ∙ r.ring_size;
      held =
          append_assoc (if d.full then r.back else []) r.front (key ∷ [])
          ∙ t.queue'
          ∙ rw (long, r.pos) refl;
      members = λ k. entered_members key k _ (kept d.full r.back r.front) (
          kept_members d.full r.oldest r.back r.front d.set k (rw r.held at (r.members k))
            (once r.oldest));
      once = λ k.
          entered_once key k (kept d.full r.back r.front) news
            (kept_once d.full r.oldest r.back r.front k (once k));
    })

oldest_there :
    (size : ℕ) (d : MsgIdDedup) (queue : List Bytes) (r : Represents size d queue)
    → get_elem? d.ring d.pos ≡ some r.oldest
oldest_there size d queue r = rw (r.ring, ← r.pos) (get_elem?-append r.front r.oldest r.back)

-- One call: the same answer, and the cache holds the new queue.
Follows : ℕ → MsgIdDedup → List Bytes × Bool → Bytes → Type 0
Follows size d result id =
    (d' : MsgIdDedup) × (seen d id ≡ some (d', result.1)) × Represents size d' result.0

seen-Follows :
    (size : ℕ) (d : MsgIdDedup) (queue : List Bytes) (id : Bytes)
    → Represents size d queue
    → Follows size d (remember size queue id) id
unfolding seen remember Follows
seen-Follows size d queue id r = elim (Bool-cases (length id == msg_id_len)) [
  | inr odd ↦ rw odd (d, refl, r)
  | inl right ↦ elim (Bool-cases (in_set id queue)) [
    | inl known ↦ rw (right, r.members id, known) (d, refl, r)
    | inr new ↦
        rw (right, r.members id, new, oldest_there size d queue r)
          (record_id d id r.oldest, refl, recorded size d queue id new r)
  ]
]

follow_all :
    (size : ℕ) (ids : List Bytes) (d : MsgIdDedup) (queue : List Bytes)
    → Represents size d queue
    → seen_all d ids ≡ some (remember_all size queue ids)
unfolding seen_all remember_all Follows
follow_all size [] d queue r = refl
follow_all size (id ∷ ids) d queue r =
    let (d', answer, r') = seen-Follows size d queue id r in
    rw (answer, follow_all size ids d' (remember size queue id).0 r', seen_all) refl

length-repeat : (n : ℕ) (k : Bytes) → length (repeat n k) ≡ n
unfolding repeat
length-repeat zero k = refl
length-repeat (suc n) k = ap suc (length-repeat n k)

new-Represents : (n : ℕ) → Represents (suc n) (new_msg_id_dedup (suc n)) []
unfolding repeat in_set count_of
new-Represents n = record {
  front = [];
  oldest = zero_id;
  back = repeat n zero_id;
  ring = refl;
  pos = refl;
  ring_size = ap suc (length-repeat n zero_id);
  held = refl;
  members = λ k. refl;
  once = λ k. omega arith;
}

-- A new cache of one or more places answers for any sequence of ids as a queue of that many ids does: an id
-- of 16 bytes has been seen if it is among the last ones recorded, and no call panics.
pub seen_all-remember_all :
    (size : ℕ) (ids : List Bytes)
    → 0 < size
    → seen_all (new_msg_id_dedup size) ids ≡ some (remember_all size [] ids)
seen_all-remember_all zero ids h = absurd (omega arith)
seen_all-remember_all (suc n) ids h = follow_all (suc n) ids _ [] (new-Represents n)
