-- ===== src/KeyValue/Examples/Memory/Rows.antt =====
-- The rows of a list of documents, and the list in the order of its ids.
use any_sync.Common.{
  ◌≡◌, refl, ap, true, false, List, [], ◌∷◌, Option, none, some, arith, Bool-cases, inl, inr, ◌∙◌,
  ok, if◌then◌else◌,
}
use any_sync.Common.Bytes.{Bytes, same, same→≡, up_to}
use any_sync.KeyValue.{Doc}
use any_sync.KeyValue.Update.{Collection}
use any_sync.KeyValue.Rows.{put_row}

unfoldable pub find : List Doc → Bytes → Option Doc
find [] id = none
find (d ∷ ds) id = if same d.id id then some d else find ds id

unfoldable pub remove : Bytes → List Doc → List Doc
remove id [] = []
remove id (d ∷ ds) = if same d.id id then remove id ds else d ∷ remove id ds

unfoldable pub insert_doc : Doc → List Doc → List Doc
insert_doc d [] = d ∷ []
insert_doc d (e ∷ es) =
    let rest = insert_doc d es in
    if same d.id e.id then d ∷ es else if up_to d.id e.id then d ∷ e ∷ es else e ∷ rest

unfoldable pub in_order : List Doc → List Doc
in_order [] = []
in_order (d ∷ ds) = insert_doc d (in_order ds)

unfoldable pub from : Bytes → List Doc → List Doc
from p [] = []
from p (d ∷ ds) = if up_to p d.id then d ∷ from p ds else from p ds

unfoldable pub memory : Collection (List Doc)
unfolding find remove in_order from insert_doc
memory = record {
  find_id = λ c id. ok (find c id);
  upsert_one = λ c d. ok (d ∷ c);
  delete_id = λ c id. ok (remove id c);
  find_from = λ c p. ok (record { docs = from p (in_order c); fails_after = none });
}

pub find-insert_doc :
    (d : Doc) (ds : List Doc) (id : Bytes)
    → find (insert_doc d ds) id ≡ (if same d.id id then some d else find ds id)
unfolding find insert_doc
find-insert_doc d [] id = refl
find-insert_doc d (e ∷ es) id = elim (Bool-cases (same d.id e.id)) [
  | inl s ↦
      let q : same d.id id ≡ same e.id id = ap (λ x. same x id) (same→≡ d.id e.id s) in
      rw s (ground arith)
  | inr s ↦
      let ih = find-insert_doc d es id in
      let apart : same d.id id ≡ true → same e.id id ≡ true → ⊥ =
        λ a b. let w : same d.id e.id ≡ true = ap (λ x. same d.id x) (same→≡ e.id id b) ∙ a in cc in
      elim (Bool-cases (up_to d.id e.id)) [
        | inl u ↦ rw (s, u) refl
        | inr u ↦
            rw (s, u)
              (elim (Bool-cases (same d.id id)) [
                | inl a ↦ elim (Bool-cases (same e.id id)) [
                  | inl b ↦ absurd (apart a b)
                  | inr b ↦ rw (b, ih) refl
                ]
                | inr a ↦ rw (ih, a) refl
              ])
      ]
]

pub find-in_order : (ds : List Doc) (id : Bytes) → find (in_order ds) id ≡ find ds id
unfolding find in_order
find-in_order [] id = refl
find-in_order (d ∷ ds) id = find-insert_doc d (in_order ds) id ∙ rw (find-in_order ds id) refl

pub find-remove :
    (id : Bytes) (ds : List Doc) (j : Bytes)
    → find (remove id ds) j ≡ (if same id j then none else find ds j)
unfolding find remove
find-remove id [] j = ground arith
find-remove id (d ∷ ds) j =
    let ih = find-remove id ds j in
    elim (Bool-cases (same d.id id)) [
      | inl s ↦
          let q : same d.id j ≡ same id j = ap (λ x. same x j) (same→≡ d.id id s) in
          rw s (ih ∙ ground arith)
      | inr s ↦ elim (Bool-cases (same d.id j)) [
        | inl a ↦
            let w : same id j ≡ false = elim (Bool-cases (same id j)) [
              | inl b ↦
                  let x : same d.id id ≡ true = ap (λ k. same d.id k) (same→≡ id j b) ∙ a in cc
              | inr b ↦ b
            ] in
            rw (s, w) (ground arith)
        | inr a ↦ rw s (rw (a, ih) refl)
      ]
    ]

pub some_inv : (a b : Doc) → ◌≡◌ {A = Option Doc} (some a) (some b) → a ≡ b
some_inv a b h = cc

pub find_cons : (d : Doc) (c : List Doc) (id : Bytes) → find (d ∷ c) id ≡ put_row d (find c) id
unfolding find
find_cons d c id = refl
