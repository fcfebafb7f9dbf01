-- ===== src/KeyValue/Marks.antt =====
-- The watermarks as a map of prefixes (`covered`, `WatermarkTs` and their publication by `Set`).
use any_sync.Common.{
  ℕ, ◌≡◌, sym, ap, ◌||◌, ◌&&◌, [], ◌∷◌, arith, Bool-cases, inl, inr, ◌∙◌, ltb, if◌then◌else◌,
}
use any_sync.Common.Bytes.{Bytes, same, same→≡, has_prefix}
use any_sync.KeyValue.Update.{Watermarks, raise, raise_all, covered, highest, watermark_ts}

pub covered-raise :
    (p key : Bytes) (t x : ℕ) (ws : Watermarks)
    → covered (raise p t ws) key x ≡ (covered ws key x || ltb x t && has_prefix key p)
unfolding covered raise
covered-raise p key t x [] = ground arith
covered-raise p key t x ((q, u) ∷ ws) =
    let ih = covered-raise p key t x ws in
    elim (Bool-cases (same q p)) [
      | inr s ↦ rw s (ground arith)
      | inl s ↦
          let e : has_prefix key q ≡ has_prefix key p = ap (has_prefix key) (same→≡ q p s) in
          elim (Bool-cases (ltb u t)) [
            | inl l ↦ rw (s, l) (ground arith)
            | inr l ↦ rw (s, l) (ground arith)
          ]
    ]

-- What was covered before or by a batch is covered by what is published.
pub covered-raise_all :
    (ms ws : Watermarks) (key : Bytes) (x : ℕ)
    → covered (raise_all ms ws) key x ≡ (covered ws key x || covered ms key x)
unfolding covered raise_all
covered-raise_all [] ws key x = ground arith
covered-raise_all ((p, t) ∷ ms) ws key x =
    covered-raise_all ms (raise p t ws) key x ∙ rw (covered-raise p key t x ws) (ground arith)

ltb-highest :
    (max_ts x : ℕ) (ws : Watermarks) (key : Bytes)
    → ltb x (highest max_ts ws key) ≡ (ltb x max_ts || covered ws key x)
unfolding covered highest
ltb-highest max_ts x [] key = ground arith
ltb-highest max_ts x ((p, t) ∷ ws) key =
    ltb-highest (if ltb max_ts t && has_prefix key p then t else max_ts) x ws key ∙ ground arith

-- A timestamp is covered under a key exactly when it is below the key's watermark, in whatever order
-- the watermarks are gone through.
pub covered-watermark_ts :
    (ws : Watermarks) (key : Bytes) (x : ℕ) → covered ws key x ≡ ltb x (watermark_ts ws key)
unfolding watermark_ts
covered-watermark_ts ws key x = sym (ltb-highest 0 x ws key ∙ ground arith)
