-- ===== src/KeyValue/Batch/Steps/Drops.antt =====
-- The invariant of a batch, and the ids that a watermark has dropped.
use any_sync.Common.{
  ℕ, ◌≡◌, refl, ap, Bool, true, false, List, [], ◌∷◌, ◌++◌, Option, some, All, map, arith,
  Bool-cases, inl, inr, ◌∙◌,
}
use any_sync.Common.Bytes.{Bytes, same, same→≡, same_refl}
use any_sync.KeyValue.{Doc, Element, element}
use any_sync.KeyValue.Update.{
  Container, Watermarks, set_elements, is_recorded, UpdateResult, record_pre, record_drops,
}
use any_sync.KeyValue.Rows.{head_of, Rows}
use any_sync.KeyValue.Batch.Recorded.{
  listed, listed-++, Snapshots, is_recorded-record_pre, same_but_pre_state,
}

-- `r0` are the rows of the start, `r` those of now.
pub record Batch (r0 : Rows) (d0 : Container) (r : Rows) (res : UpdateResult) : Type 0 where
  pub snapshots : Snapshots d0 res.pre_state
  pub untouched : (id : Bytes) → is_recorded id res.pre_state ≡ false → r id ≡ r0 id
  pub no_element :
      (id : Bytes) → is_recorded id res.pre_state ≡ false → listed id res.elements ≡ false
  pub no_removal :
      (id : Bytes) → is_recorded id res.pre_state ≡ false → listed id res.removed ≡ false
  pub advertised :
      (id : Bytes)
      → listed id res.removed ≡ false
      → set_elements res.elements d0 id ≡ head_of (r id)

-- The id has a snapshot and is withdrawn.
abbrev pub Gone : UpdateResult → Bytes → Type 0
Gone res id = (is_recorded id res.pre_state ≡ true) × (listed id res.removed ≡ true)

pub apart : (test : Bytes → Bool) (i j : Bytes) → test i ≡ true → test j ≡ false → same i j ≡ false
apart test i j s t = elim (Bool-cases (same i j)) [
  | inl q ↦ let p : test i ≡ test j = ap test (same→≡ i j q) in ground arith
  | inr q ↦ q
]

pub Gone-record_pre :
    (j id : Bytes) (pre : Option ℕ) (e : Element) (res : UpdateResult)
    → Gone res j
    → Gone
        (record (record_pre id pre res) { removed = (record_pre id pre res).removed ++ e ∷ [] })
        j
Gone-record_pre j id pre e res g = (
  is_recorded-record_pre j id pre res ∙ rw g.0 refl,
  listed-++ j (record_pre id pre res).removed (e ∷ [])
      ∙ rw (ap (listed j) (same_but_pre_state id pre res).1, g.1) refl,
)

pub Gone-record_drops :
    (j : Bytes) (ds : List Doc) (res : UpdateResult) → Gone res j → Gone (record_drops res ds) j
unfolding record_drops
Gone-record_drops j [] res g = g
Gone-record_drops j (d ∷ ds) res g =
    Gone-record_drops j ds _ (Gone-record_pre j d.id (some d.t) (element d) res g)

pub record_drops-Gone :
    (ds : List Doc) (res : UpdateResult) → All (Gone (record_drops res ds)) (map (λ d. d.id) ds)
unfolding record_drops listed
record_drops-Gone [] res = tt
record_drops-Gone (d ∷ ds) res = (
  Gone-record_drops d.id ds _ (
    is_recorded-record_pre d.id d.id (some d.t) res ∙ rw (same_refl d.id) (ground arith),
    listed-++ d.id (record_pre d.id (some d.t) res).removed (element d ∷ [])
        ∙ rw (same_refl d.id) (ground arith),
  ),
  record_drops-Gone ds _,
)

-- The rest of a result does not enter the invariant.
pub same_lists :
    {r0 : Rows} {d0 : Container} {r : Rows} {res : UpdateResult} {ids : List Bytes}
    {ws : Watermarks}
    → Batch r0 d0 r res
    → Batch r0 d0 r (record res { dropped_ids = ids; watermarks = ws })
same_lists b = record {
  snapshots = b.snapshots;
  untouched = b.untouched;
  no_element = b.no_element;
  no_removal = b.no_removal;
  advertised = b.advertised;
}
