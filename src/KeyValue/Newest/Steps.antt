-- ===== src/KeyValue/Newest/Steps.antt =====
-- What the rest of a batch keeps of a write: a row at least as new, or a watermark over it.
use any_sync.Common.{
  ℕ, ◌≡◌, sym, ap, subst, true, false, some, arith, Bool-cases, inl, inr, ◌∙◌, ok, All, leb, ◌≤◌,
  ◌⊎◌,
}
use any_sync.Common.Bytes.{Bytes, same, same→≡, has_prefix}
use any_sync.KeyValue.{KeyValue, Doc, any_enc}
use any_sync.KeyValue.Update.{Collection, Watermarks, UpdateResult, covered, falls}
use any_sync.KeyValue.Rows.{Documents, head_of}
use any_sync.KeyValue.Marks.{covered-raise}
use any_sync.KeyValue.Batch.{in_list, same_but_pre_state, record_drops_lists, ids_of, Keeps}
use any_sync.KeyValue.Guarded.Falls.{some-injective}
use any_sync.KeyValue.Changes.{
  falling-falls, rows-delete_all, left, removed_falls, put_row_there, put_row_elsewhere,
}

module _ {C : Type 0} (db : Collection C) (laws : Documents db) (key_of : Bytes → Bytes) where
  abbrev pub KeyedBy : C → Type 0
  KeyedBy c = (id : Bytes) (d : Doc) → laws.rows c id ≡ some d → d.k ≡ key_of id

  -- A row with the id is at least as new as `t`.
  abbrev pub Stored : C → Bytes → ℕ → Type 0
  Stored c id t = (d : Doc) × (laws.rows c id ≡ some d) × (t ≤ d.t)

  abbrev pub Admits : KeyValue → Type 0
  Admits kv = kv.key ≡ key_of kv.key_peer_id

  module _ (ws : Watermarks) (id : Bytes) (t : ℕ) where
    abbrev pub Safe : C → UpdateResult → Type 0
    Safe c res =
        (covered ws (key_of id) t ≡ true)
        ⊎ ((covered res.watermarks (key_of id) t ≡ true) ⊎ Stored c id t)

    pub record Kept (c : C) (res : UpdateResult) : Type 0 where
      pub keyed : KeyedBy c
      pub safe : Safe c res

  pub KeyedBy-upsert :
      (c c' : C) (kv : KeyValue)
      → KeyedBy c
      → Admits kv
      → db.upsert_one c (any_enc kv) ≡ ok c'
      → KeyedBy c'
  KeyedBy-upsert c c' kv k a e id d h = elim (Bool-cases (same kv.key_peer_id id)) [
    | inl s ↦
        let i : kv.key_peer_id ≡ id = same→≡ _ _ s in
        let q : any_enc kv ≡ d =
          some-injective (sym (put_row_there db laws c c' kv e) ∙ (ap (laws.rows c') i ∙ h)) in
        ap (λ (x : Doc). x.k) (sym q) ∙ (a ∙ ap key_of i)
    | inr s ↦ k id d (sym (put_row_elsewhere db laws c c' kv id e s) ∙ h)
  ]

  pub keeps :
      (ws : Watermarks) (id : Bytes) (t : ℕ)
      → Keeps db laws ws (Kept ws id t) (λ res. Unit {0}) Admits
  keeps ws id t = record {
    upserts = λ c c' res kv k a w e. record {
      keyed = KeyedBy-upsert c c' kv k.keyed a e;
      safe =
          let n = same_but_pre_state kv.key_peer_id (head_of (laws.rows c kv.key_peer_id)) res in
          elim k.safe [
            | inl h ↦ inl h
            | inr (inl h) ↦ inr (inl (rw (n.2) h))
            | inr (inr (d, q, l)) ↦ elim (Bool-cases (same kv.key_peer_id id)) [
              | inl s ↦
                  let i : kv.key_peer_id ≡ id = same→≡ _ _ s in
                  let x : leb kv.timestamp_micro d.t ≡ false = w.newer d (ap (laws.rows c) i ∙ q) in
                  inr (
                    inr (
                      any_enc kv,
                      ap (laws.rows c') (sym i) ∙ put_row_there db laws c c' kv e,
                      ground arith,
                    ))
              | inr s ↦ inr (inr (d, put_row_elsewhere db laws c c' kv id e s ∙ q, l))
            ]
          ];
    };
    drops = λ c c' res wm docs k held sw. record {
      keyed = λ j d h. k.keyed j d (left db laws c c' _ j d sw.removed h).0;
      safe =
          let n = record_drops_lists res docs in
          let raised =
            covered-raise wm.delete_prefix (key_of id) wm.timestamp_micro t res.watermarks in
          elim k.safe [
            | inl h ↦ inl h
            | inr (inl h) ↦ inr (inl (rw (n.2) (raised ∙ ground arith)))
            | inr (inr (d, q, l)) ↦ elim (Bool-cases (in_list id (ids_of docs))) [
              | inl m ↦
                  let f : falls wm d ≡ true =
                    removed_falls db laws c wm docs id d held
                      (subst (All (λ e. falls wm e ≡ true)) (sym sw.fallen) (falling-falls wm _)) q
                      m in
                  let key : has_prefix d.k wm.delete_prefix
                      ≡ has_prefix (key_of id) wm.delete_prefix =
                    ap (λ x. has_prefix x wm.delete_prefix) (k.keyed id d q) in
                  inr (inl (rw (n.2) (raised ∙ ground arith)))
              | inr m ↦ inr (inr (d, rows-delete_all db laws c c' _ sw.removed id ∙ (rw m q), l))
            ]
          ];
    };
    stops = λ c res k. tt;
    marks = λ c res kv k. tt;
    scans = λ c res docs k held. tt;
  }
