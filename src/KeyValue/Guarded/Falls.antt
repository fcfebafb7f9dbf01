-- ===== src/KeyValue/Guarded/Falls.antt =====
-- The rows that a watermark makes fall.
use any_sync.Common.{
  ◌≡◌, refl, sym, ap, true, false, List, [], ◌∷◌, Option, some, arith, Bool-cases, inl, inr, ◌∙◌,
  All, ◌<◌,
}
use any_sync.Common.Bytes.{Bytes, same, same_refl, has_prefix}
use any_sync.KeyValue.{KeyValue, Doc, float_limit}
use any_sync.KeyValue.Update.{Watermarks, covered, falling, falls}
use any_sync.KeyValue.Rows.{Rows, Among}
use any_sync.KeyValue.Batch.{in_list, ids_of}

-- The id of a row starts with its key.
abbrev pub Keyed : Rows → Type 0
Keyed r = (id : Bytes) (d : Doc) → r id ≡ some d → has_prefix d.id d.k ≡ true

-- A float64 keeps the timestamps of the rows.
abbrev pub InTime : Rows → Type 0
InTime r = (id : Bytes) (d : Doc) → r id ≡ some d → d.t < float_limit

abbrev pub Uncovered : Watermarks → Rows → Type 0
Uncovered ws r = (id : Bytes) (d : Doc) → r id ≡ some d → covered ws d.k d.t ≡ false

pub All-right : (P Q : Doc → Type 0) (ds : List Doc) → All (λ d. P d × Q d) ds → All Q ds
All-right P Q [] a = tt
All-right P Q (d ∷ ds) a = (a.0.1, All-right P Q ds a.1)

pub some-injective : {a b : Doc} → ◌≡◌ {A = Option Doc} (some a) (some b) → a ≡ b
some-injective h = cc

pub Among-falling :
    (wm : KeyValue) (d : Doc) (ds : List Doc)
    → Among d ds
    → falls wm d ≡ true
    → in_list d.id (ids_of (falling wm ds)) ≡ true
unfolding falling in_list
Among-falling wm d [] m f = absurd m
Among-falling wm d (e ∷ es) (inl q) f =
    let g : falls wm e ≡ true = ap (falls wm) (sym q) ∙ f in
    let s : same e.id d.id ≡ true = ap (λ (x : Doc). same x.id d.id) (sym q) ∙ same_refl d.id in
    rw g (rw s refl)
Among-falling wm d (e ∷ es) (inr m) f =
    let ih = Among-falling wm d es m f in
    elim (Bool-cases (falls wm e)) [ inl g ↦ rw g (rw ih (ground arith)) | inr g ↦ rw g ih ]
