-- ===== src/KeyValue/Batch/Recorded.antt =====
-- The lists of a batch: elements to advertise and to withdraw, and the snapshots of the ids.
use any_sync.Common.{
  ℕ, ◌≡◌, refl, Bool, true, false, ◌||◌, List, [], ◌∷◌, ◌++◌, Option, none, some, All, map,
  if◌then◌else◌, arith, Bool-cases, inl, inr, ◌∙◌, ap, subst, sym,
}
use mathlib.Core.List.{map-append, append-nil, append_assoc}
use any_sync.Common.Bytes.{Bytes, same, same→≡}
use any_sync.KeyValue.{Doc, Element, element}
use any_sync.KeyValue.Update.{
  Container, set_elements, remove_elements, PreState, is_recorded, undo, UpdateResult, record_pre,
  record_drops,
}

unfoldable pub listed : Bytes → List Element → Bool
listed id [] = false
listed id (e ∷ es) = same e.id id || listed id es

pub listed-++ :
    (id : Bytes) (es fs : List Element) → listed id (es ++ fs) ≡ (listed id es || listed id fs)
unfolding listed
listed-++ id [] fs = refl
listed-++ id (e ∷ es) fs = rw (listed-++ id es fs) (ground arith)

pub is_recorded-++ :
    (id : Bytes) (ps qs : PreState)
    → is_recorded id (ps ++ qs) ≡ (is_recorded id ps || is_recorded id qs)
unfolding is_recorded
is_recorded-++ id [] qs = refl
is_recorded-++ id ((j, pre) ∷ ps) qs = rw (is_recorded-++ id ps qs) (ground arith)

pub set_elements-++ :
    (es fs : List Element) (d : Container)
    → set_elements (es ++ fs) d ≡ set_elements fs (set_elements es d)
unfolding set_elements
set_elements-++ [] fs d = refl
set_elements-++ (e ∷ es) fs d = set_elements-++ es fs _

pub set_elements_unlisted :
    (id : Bytes) (es : List Element) (d : Container)
    → listed id es ≡ false
    → set_elements es d id ≡ d id
unfolding set_elements listed
set_elements_unlisted id [] d h = refl
set_elements_unlisted id (e ∷ es) d h = set_elements_unlisted id es _ (ground arith) ∙ ground arith

pub remove_elements_lem :
    (id : Bytes) (es : List Element) (d : Container)
    → remove_elements es d id ≡ (if listed id es then none else d id)
unfolding remove_elements listed
remove_elements_lem id [] d = refl
remove_elements_lem id (e ∷ es) d = remove_elements_lem id es _ ∙ ground arith

-- Each snapshot is what the container had at the start.
abbrev pub Snapshots : Container → PreState → Type 0
Snapshots d0 = All λ s. s.1 ≡ d0 s.0

pub undo_unrecorded :
    (id : Bytes) (ps : PreState) (d : Container) → is_recorded id ps ≡ false → undo ps d id ≡ d id
unfolding undo is_recorded
undo_unrecorded id [] d h = refl
undo_unrecorded id ((j, pre) ∷ ps) d h = undo_unrecorded id ps _ (ground arith) ∙ ground arith

pub undo-is_recorded :
    (d0 : Container) (id : Bytes) (ps : PreState) (d : Container)
    → Snapshots d0 ps
    → is_recorded id ps ≡ true
    → undo ps d id ≡ d0 id
unfolding undo is_recorded
undo-is_recorded d0 id [] d a h = ground arith
undo-is_recorded d0 id ((j, pre) ∷ ps) d a h = elim (Bool-cases (is_recorded id ps)) [
  | inl r ↦ undo-is_recorded d0 id ps _ a.1 r
  | inr r ↦
      let s : same j id ≡ true = ground arith in
      undo_unrecorded id ps _ r ∙ (rw s (a.0 ∙ ap d0 (same→≡ j id s)))
]

pub Snapshots-++ :
    (d0 : Container) (ps : PreState) (id : Bytes) (pre : Option ℕ)
    → Snapshots d0 ps
    → pre ≡ d0 id
    → Snapshots d0 (ps ++ (id, pre) ∷ [])
Snapshots-++ d0 [] id pre a h = (h, tt)
Snapshots-++ d0 (p ∷ ps) id pre a h = (a.0, Snapshots-++ d0 ps id pre a.1 h)

-- A snapshot is taken of an id that has none, and of no other.
pub is_recorded-record_pre :
    (j id : Bytes) (pre : Option ℕ) (res : UpdateResult)
    → is_recorded j (record_pre id pre res).pre_state ≡ (is_recorded j res.pre_state || same id j)
unfolding record_pre is_recorded
is_recorded-record_pre j id pre res = elim (Bool-cases (is_recorded id res.pre_state)) [
  | inl r ↦ elim (Bool-cases (same id j)) [
    | inl s ↦
        let q : id ≡ j = same→≡ id j s in
        let t : is_recorded j res.pre_state ≡ true =
          subst (λ k. is_recorded k res.pre_state ≡ true) q r in
        ground arith
    | inr s ↦ ground arith
  ]
  | inr r ↦ rw (r, is_recorded-++ j res.pre_state ((id, pre) ∷ [])) (ground arith)
]

pub Snapshots-record_pre :
    (d0 : Container) (id : Bytes) (pre : Option ℕ) (res : UpdateResult)
    → Snapshots d0 res.pre_state
    → (is_recorded id res.pre_state ≡ false → pre ≡ d0 id)
    → Snapshots d0 (record_pre id pre res).pre_state
unfolding record_pre
Snapshots-record_pre d0 id pre res a h = elim (Bool-cases (is_recorded id res.pre_state)) [
  | inl r ↦ rw r a
  | inr r ↦ rw r (Snapshots-++ d0 res.pre_state id pre a (h r))
]

pub same_but_pre_state :
    (id : Bytes) (pre : Option ℕ) (res : UpdateResult)
    → ((record_pre id pre res).elements ≡ res.elements)
      × ((record_pre id pre res).removed ≡ res.removed)
      × ((record_pre id pre res).watermarks ≡ res.watermarks)
      × ((record_pre id pre res).applied ≡ res.applied)
      × ((record_pre id pre res).dropped_ids ≡ res.dropped_ids)
unfolding record_pre
same_but_pre_state id pre res = elim (Bool-cases (is_recorded id res.pre_state)) [
  | inl r ↦ rw r (refl, refl, refl, refl, refl)
  | inr r ↦ rw r (refl, refl, refl, refl, refl)
]

-- The drops of a watermark join the elements to withdraw, and nothing else but snapshots.
pub record_drops_lists :
    (res : UpdateResult) (ds : List Doc)
    → (map (λ (e : Element). e.id) (record_drops res ds).removed
        ≡ map (λ (e : Element). e.id) res.removed ++ map (λ (d : Doc). d.id) ds)
      × ((record_drops res ds).dropped_ids ≡ res.dropped_ids)
      × ((record_drops res ds).watermarks ≡ res.watermarks)
      × ((record_drops res ds).applied ≡ res.applied)
unfolding record_drops
record_drops_lists res [] = (sym (append-nil _), refl, refl, refl)
record_drops_lists res (d ∷ ds) =
    let keeps = same_but_pre_state d.id (some d.t) res in
    let seen : UpdateResult = record_pre d.id (some d.t) res in
    let ih = record_drops_lists (record seen { removed = seen.removed ++ element d ∷ [] }) ds in
    (
      ih.0
          ∙ rw (map-append (λ (e : Element). e.id) seen.removed (element d ∷ []), keeps.1)
              (append_assoc (map (λ (e : Element). e.id) res.removed) (d.id ∷ []) (ids ds)),
      ih.1 ∙ keeps.4,
      ih.2 ∙ keeps.2,
      ih.3 ∙ keeps.3,
    )
  where
    ids : List Doc → List Bytes
    ids = map λ d. d.id

unfoldable pub in_list : Bytes → List Bytes → Bool
in_list id [] = false
in_list id (j ∷ js) = same j id || in_list id js

pub listed-in_list :
    (id : Bytes) (es : List Element) → listed id es ≡ in_list id (map (λ e. e.id) es)
unfolding listed in_list
listed-in_list id [] = refl
listed-in_list id (e ∷ es) = rw (listed-in_list id es) refl
