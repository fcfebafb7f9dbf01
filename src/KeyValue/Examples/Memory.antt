-- ===== src/KeyValue/Examples/Memory.antt =====
-- A document store in memory, the newest write first: what is asked of a document store can be had.
pub mod Rows
use any_sync.Common.{
  ◌≡◌, refl, sym, ap, subst, fun_ext, true, false, List, [], ◌∷◌, Option, none, some, arith,
  Bool-cases, inl, inr, ◌∙◌, ok, if◌then◌else◌, All, ok-injective,
}
use any_sync.Common.Bytes.{
  Bytes, same, same→≡, same_refl, up_to, up_to_trans, up_to_total, up_to_antisym,
}
use any_sync.KeyValue.{Doc}
use any_sync.KeyValue.Update.{Collection, Cursor}
use any_sync.KeyValue.Rows.{Documents, Among, Ascending, put_row}
use any_sync.KeyValue.Examples.Memory.Rows.{
  find, remove, insert_doc, in_order, from, memory, find-insert_doc, find-in_order, find-remove,
  some_inv, find_cons,
}

abbrev Before : Doc → Doc → Type 0
Before d e = (up_to d.id e.id ≡ true) × (same d.id e.id ≡ false)

abbrev Strict : List Doc → Type 0
Strict [] = Unit
Strict (d ∷ ds) = All (Before d) ds × Strict ds

Before-trans : (a b c : Doc) → Before a b → Before b c → Before a c
Before-trans a b c p q = (
  up_to_trans a.id b.id c.id p.0 q.0,
  elim (Bool-cases (same a.id c.id)) [
    | inr s ↦ s
    | inl s ↦
        let e : a.id ≡ c.id = same→≡ a.id c.id s in
        let u : up_to c.id b.id ≡ true = subst (λ x. up_to x b.id ≡ true) e p.0 in
        let w : same b.id c.id ≡ true = up_to_antisym b.id c.id q.0 u in cc
  ],
)

All-Before : (a b : Doc) (ds : List Doc) → Before a b → All (Before b) ds → All (Before a) ds
All-Before a b [] p h = tt
All-Before a b (d ∷ ds) p h = (Before-trans a b d p h.0, All-Before a b ds p h.1)

All-insert_doc :
    (x d : Doc) (es : List Doc) → Before x d → All (Before x) es → All (Before x) (insert_doc d es)
unfolding insert_doc
All-insert_doc x d [] p h = (p, tt)
All-insert_doc x d (e ∷ es) p h = elim (Bool-cases (same d.id e.id)) [
  | inl s ↦ rw (s, All) (p, h.1)
  | inr s ↦ elim (Bool-cases (up_to d.id e.id)) [
    | inl u ↦ rw (s, u, All) (p, h)
    | inr u ↦ rw (s, u, All) (h.0, All-insert_doc x d es p h.1)
  ]
]

moved : (d e : Doc) (es : List Doc) → d.id ≡ e.id → All (Before e) es → All (Before d) es
moved d e [] q h = tt
moved d e (x ∷ xs) q h =
    (subst (λ k. (up_to k x.id ≡ true) × (same k x.id ≡ false)) (sym q) h.0, moved d e xs q h.1)

Strict-insert_doc : (d : Doc) (es : List Doc) → Strict es → Strict (insert_doc d es)
unfolding insert_doc
Strict-insert_doc d [] h = (tt, tt)
Strict-insert_doc d (e ∷ es) h = elim (Bool-cases (same d.id e.id)) [
  | inl s ↦ rw (s, Strict) (moved d e es (same→≡ d.id e.id s) h.0, h.1)
  | inr s ↦ elim (Bool-cases (up_to d.id e.id)) [
    | inl u ↦ rw (s, u, Strict) (((u, s), All-Before d e es (u, s) h.0), h)
    | inr u ↦
        let t : same e.id d.id ≡ false = elim (Bool-cases (same e.id d.id)) [
          | inr b ↦ b
          | inl b ↦
              let x : same d.id e.id ≡ true =
                ap (λ k. same d.id k) (same→≡ e.id d.id b) ∙ same_refl d.id in
              cc
        ] in
        rw (s, u, Strict)
          (All-insert_doc e d es (up_to_total d.id e.id u, t) h.0, Strict-insert_doc d es h.1)
  ]
]

in_order-Strict : (ds : List Doc) → Strict (in_order ds)
unfolding in_order
in_order-Strict [] = tt
in_order-Strict (d ∷ ds) = Strict-insert_doc d (in_order ds) (in_order-Strict ds)

-- A predicate of each of the documents holds of one among them.
All-Among : (P : Doc → Type 0) (d : Doc) (ds : List Doc) → All P ds → Among d ds → P d
All-Among P d [] a m = absurd m
All-Among P d (e ∷ es) a (inl q) = subst P (sym q) a.0
All-Among P d (e ∷ es) a (inr m) = All-Among P d es a.1 m

each : (P : Doc → Type 0) (ds : List Doc) → ((d : Doc) → Among d ds → P d) → All P ds
each P [] h = tt
each P (d ∷ ds) h = (h d (inl refl), each P ds (λ e m. h e (inr m)))

find-Among : (d : Doc) (ds : List Doc) → Strict ds → Among d ds → find ds d.id ≡ some d
unfolding find
find-Among d [] s m = absurd m
find-Among d (e ∷ es) s (inl q) =
    let w : same e.id d.id ≡ true = ap (λ (x : Doc). same e.id x.id) q ∙ same_refl e.id in
    rw w (ap some (sym q))
find-Among d (e ∷ es) s (inr m) =
    let b : Before e d = All-Among (Before e) d es s.0 m in rw b.1 (find-Among d es s.1 m)

Among-find : (ds : List Doc) (id : Bytes) (d : Doc) → find ds id ≡ some d → Among d ds × (d.id ≡ id)
unfolding find
Among-find [] id d h = cc
Among-find (e ∷ es) id d h = elim (Bool-cases (same e.id id)) [
  | inl s ↦
      let q : ◌≡◌ {A = Option Doc} (some e) (some d) =
        subst (λ b. (if b then some e else find es id) ≡ some d) s h in
      let r : e ≡ d = some_inv e d q in
      (inl (sym r), ap (λ (x : Doc). x.id) (sym r) ∙ same→≡ e.id id s)
  | inr s ↦
      let ih = Among-find es id d (subst (λ b. (if b then some e else find es id) ≡ some d) s h) in
      (inr ih.0, ih.1)
]

from-Among :
    (p : Bytes) (d : Doc) (ds : List Doc) → Among d ds → up_to p d.id ≡ true → Among d (from p ds)
unfolding from
from-Among p d [] m u = absurd m
from-Among p d (e ∷ es) (inl q) u =
    let w : up_to p e.id ≡ true = ap (λ (x : Doc). up_to p x.id) (sym q) ∙ u in rw w (inl q)
from-Among p d (e ∷ es) (inr m) u =
    let ih = from-Among p d es m u in
    elim (Bool-cases (up_to p e.id)) [ inl w ↦ rw w (inr ih) | inr w ↦ rw w ih ]

Among-from :
    (p : Bytes) (d : Doc) (ds : List Doc) → Among d (from p ds) → Among d ds × (up_to p d.id ≡ true)
unfolding from
Among-from p d [] m = absurd m
Among-from p d (e ∷ es) m = elim (Bool-cases (up_to p e.id)) [
  | inl w ↦ elim (subst (λ b. Among d (if b then e ∷ from p es else from p es)) w m) [
    | inl q ↦ (inl q, ap (λ (x : Doc). up_to p x.id) q ∙ w)
    | inr n ↦ let ih = Among-from p d es n in (inr ih.0, ih.1)
  ]
  | inr w ↦
      let ih =
        Among-from p d es (subst (λ b. Among d (if b then e ∷ from p es else from p es)) w m) in
      (inr ih.0, ih.1)
]

from-All : (P : Doc → Type 0) (p : Bytes) (ds : List Doc) → All P ds → All P (from p ds)
unfolding from
from-All P p [] a = tt
from-All P p (d ∷ ds) a = elim (Bool-cases (up_to p d.id)) [
  | inl w ↦ rw (w, All) (a.0, from-All P p ds a.1)
  | inr w ↦ rw w (from-All P p ds a.1)
]

later : (d : Doc) (ds : List Doc) → All (Before d) ds → All (λ e. up_to d.id e.id ≡ true) ds
later d [] a = tt
later d (e ∷ es) a = (a.0.0, later d es a.1)

from-Ascending : (p : Bytes) (ds : List Doc) → Strict ds → Ascending (from p ds)
unfolding from
from-Ascending p [] s = tt
from-Ascending p (d ∷ ds) s = elim (Bool-cases (up_to p d.id)) [
  | inl w ↦
      rw (w, Ascending)
        (from-All (λ e. up_to d.id e.id ≡ true) p ds (later d ds s.0), from-Ascending p ds s.1)
  | inr w ↦ rw w (from-Ascending p ds s.1)
]

pub memory_documents : Documents memory
unfolding memory
memory_documents = record {
  rows = find;
  found = λ c id o e. sym (ok-injective e);
  named = λ c id d h. (Among-find c id d h).1;
  put_in = λ c c' d e. sym (ap find (ok-injective e)) ∙ fun_ext (find_cons d c);
  taken_out = λ c c' id e. sym (ap find (ok-injective e)) ∙ fun_ext (find-remove id c);
  search_finds = λ c p cur id d e h u.
      let n = Among-find c id d h in
      let m = Among-find (in_order c) id d (find-in_order c id ∙ h) in
      subst (λ (x : Cursor). Among d x.docs) (ok-injective e)
        (from-Among p d (in_order c) m.0 (ap (up_to p) n.1 ∙ u));
  search_holds = λ c p cur e.
      subst (λ (x : Cursor). All (λ d. (find c d.id ≡ some d) × (up_to p d.id ≡ true)) x.docs)
        (ok-injective e)
        (each _ (from p (in_order c)) (λ d m.
          let a = Among-from p d (in_order c) m in
          (sym (find-in_order c d.id) ∙ find-Among d (in_order c) (in_order-Strict c) a.0, a.1)));
  search_ascends = λ c p cur e.
      subst (λ (x : Cursor). Ascending x.docs) (ok-injective e)
        (from-Ascending p (in_order c) (in_order-Strict c));
}

pub rows-memory_documents : (c : List Doc) → memory_documents.rows c ≡ find c
unfolding memory_documents
rows-memory_documents c = refl
