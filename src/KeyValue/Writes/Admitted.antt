-- ===== src/KeyValue/Writes/Admitted.antt =====
-- What `SetRaw` admits (storage.go): signed values, and watermarks of the owner.
use any_sync.Common.{
  ℕ, ◌≡◌, ◌<◌, sym, ap, subst, true, false, List, [], ◌∷◌, Option, none, some, arith, Option-cases,
  Result-cases, inl, inr, ◌∙◌, ok, All,
}
use any_sync.Common.Assoc.{Assoc}
use any_sync.Common.Bytes.{has_prefix, has_prefix-++}
use any_sync.Acl.Model.{AclState}
use any_sync.Acl.State.{permissions, read_key_for_acl_id}
use any_sync.Acl.Permissions.{is_owner}
use any_sync.KeyValue.{
  KeyValue, Decoder, StoreKeyValue, StoreKeyInner, float_limit, key_value_from_proto, is_empty_text,
  dash,
}
use any_sync.KeyValue.Decode.{IsChecked, key_value_from_proto-IsSigned}
use any_sync.KeyValue.Update.{Container, Collection}
use any_sync.KeyValue.Store.{Storage, SetResult, Calls}
use any_sync.KeyValue.Rows.{Documents}
use any_sync.KeyValue.Guarded.{IsGuarded, set_values-IsGuarded}
use any_sync.KeyValue.Writes.{decode_all, admit, admit_all, set_some, set_raw}
use any_sync.KeyValue.Writes.Applied.{Applied, set_some-Applied}

module _ (d : Decoder) (indexes : Assoc ℕ) (st : AclState) where
  -- Signed by its account, checked, and from the owner where it is a watermark.
  pub record IsAdmitted (kv : KeyValue) : Type 0 where
    pub checked : IsChecked d kv
    pub signed : d.verify kv.identity_pub_key kv.value.value kv.value.identity_signature ≡ true
    pub by_owner :
        is_empty_text kv.delete_prefix ≡ false
        → is_owner (permissions st kv.identity_pub_key) ≡ true

  -- What decoding gives.
  abbrev Decoded : KeyValue → Type 0
  Decoded kv =
      IsChecked d kv
      × (d.verify kv.identity_pub_key kv.value.value kv.value.identity_signature ≡ true)

  decode_all-Decoded : (protos : List StoreKeyValue) → All Decoded (decode_all d protos)
  unfolding decode_all
  decode_all-Decoded [] = tt
  decode_all-Decoded (proto ∷ protos) = elim (Result-cases (key_value_from_proto d proto true)) [
    | inl (e, q) ↦ rw (q, All) (decode_all-Decoded protos)
    | inr (kv, q) ↦
        let c = key_value_from_proto-IsSigned d proto kv q in
        let v : kv.value ≡ record {
          value = proto.value;
          peer_signature = proto.peer_signature;
          identity_signature = proto.identity_signature;
        } =
          ap (λ (x : KeyValue). x.value) c.1.is_inner in
        rw (q, All) ((c.0, rw v c.1.by_identity), decode_all-Decoded protos)
  ]

  admit-IsAdmitted :
      (diff : Container) (kv kv' : KeyValue)
      → Decoded kv
      → admit indexes st diff kv ≡ some kv'
      → IsAdmitted kv'
  unfolding admit
  admit-IsAdmitted diff kv kv' a h =
      let b = a.0 in
      elim (Result-cases (read_key_for_acl_id indexes st kv.acl_id)) [
        | inl (e, q) ↦ let x : admit indexes st diff kv ≡ none = ground arith in cc
        | inr (k, q) ↦
            let e : record kv { read_key_id = k } ≡ kv' = ground arith in
            subst IsAdmitted e record {
              checked = record { keyed = b.keyed; mirrors = b.mirrors };
              signed = a.1;
              by_owner = λ w. ground arith;
            }
      ]

  -- Admission looks up the read key, and nothing else changes.
  admitted-timestamp :
      (diff : Container) (kv kv' : KeyValue)
      → admit indexes st diff kv ≡ some kv'
      → kv'.timestamp_micro ≡ kv.timestamp_micro
  unfolding admit
  admitted-timestamp diff kv kv' h =
      elim (Result-cases (read_key_for_acl_id indexes st kv.acl_id)) [
        | inl (e, q) ↦ let x : admit indexes st diff kv ≡ none = ground arith in cc
        | inr (k, q) ↦
            let e : record kv { read_key_id = k } ≡ kv' = ground arith in
            ap (λ x. x.timestamp_micro) (sym e)
      ]

  admit_all-IsAdmitted :
      (diff : Container) (kvs : List KeyValue)
      → All Decoded kvs
      → All IsAdmitted (admit_all indexes st diff kvs)
  unfolding admit_all
  admit_all-IsAdmitted diff [] a = tt
  admit_all-IsAdmitted diff (kv ∷ kvs) a = elim (Option-cases (admit indexes st diff kv)) [
    | inl q ↦ rw (q, All) (admit_all-IsAdmitted diff kvs a.1)
    | inr (kv', q) ↦
        rw (q, All) (admit-IsAdmitted diff kv kv' a.0 q, admit_all-IsAdmitted diff kvs a.1)
  ]

  -- A float64 keeps the timestamp.
  abbrev Timely : KeyValue → Type 0
  Timely kv = kv.timestamp_micro < float_limit

  -- A float64 keeps the timestamp that was sent.
  abbrev pub SentInTime : StoreKeyValue → Type 0
  SentInTime proto =
      (inner : StoreKeyInner)
      → d.unmarshal_inner proto.value ≡ some inner
      → inner.timestamp_micro < float_limit

  decode_all-Timely :
      (protos : List StoreKeyValue) → All SentInTime protos → All Timely (decode_all d protos)
  unfolding decode_all
  decode_all-Timely [] t = tt
  decode_all-Timely (proto ∷ protos) t = elim (Result-cases (key_value_from_proto d proto true)) [
    | inl (e, q) ↦ rw (q, All) (decode_all-Timely protos t.1)
    | inr (kv, q) ↦
        let s = (key_value_from_proto-IsSigned d proto kv q).1 in
        rw (q, All)
          (subst Timely (sym s.is_inner) (t.0 s.inner s.decoded), decode_all-Timely protos t.1)
  ]

  admit_all-Timely :
      (diff : Container) (kvs : List KeyValue)
      → All Timely kvs
      → All Timely (admit_all indexes st diff kvs)
  unfolding admit_all
  admit_all-Timely diff [] t = tt
  admit_all-Timely diff (kv ∷ kvs) t = elim (Option-cases (admit indexes st diff kv)) [
    | inl q ↦ rw (q, All) (admit_all-Timely diff kvs t.1)
    | inr (kv', q) ↦
        let same : kv'.timestamp_micro ≡ kv.timestamp_micro = admitted-timestamp diff kv kv' q in
        rw (q, All) (rw same t.0, admit_all-Timely diff kvs t.1)
  ]

  starts_with_key :
      (kvs : List KeyValue)
      → All IsAdmitted kvs
      → All Timely kvs
      → All (λ kv. (has_prefix kv.key_peer_id kv.key ≡ true) × Timely kv) kvs
  starts_with_key [] a t = tt
  starts_with_key (kv ∷ kvs) a t = (
    (
      ap (λ x. has_prefix x kv.key) a.0.checked.keyed ∙ has_prefix-++ kv.key (dash ∷ kv.peer_id),
      t.0,
    ),
    starts_with_key kvs a.1 t.1,
  )

  module _ {C : Type 0} (db : Collection C) (laws : Documents db) where
    set_some-IsGuarded :
        (f : Calls) (kvs : List KeyValue) (s : Storage C)
        → IsGuarded db laws s
        → All IsAdmitted kvs
        → All Timely kvs
        → IsGuarded db laws (set_some db f kvs s).0
    unfolding set_some
    set_some-IsGuarded f [] s g a t = g
    set_some-IsGuarded f (kv ∷ kvs) s g a t =
        set_values-IsGuarded db laws f (kv ∷ kvs) s g (starts_with_key (kv ∷ kvs) a t)

    -- If the values sent that decode have timestamps from 0 to below 2^53, the numbers that the float64
    -- of a row keeps, then `SetRaw`, whichever calls fail, keeps the invariant that every row has an id
    -- that starts with its key, a timestamp below 2^53, and one not below the watermark of its key, that
    -- is the highest timestamp of the watermarks whose prefix the key has.
    pub set_raw-IsGuarded :
        (read_keys : Option ℕ) (f : Calls) (protos : List StoreKeyValue) (s : Storage C)
        → IsGuarded db laws s
        → All SentInTime protos
        → IsGuarded db laws (set_raw db d indexes st read_keys f protos s).0
    unfolding set_raw
    set_raw-IsGuarded read_keys f [] s g t = g
    set_raw-IsGuarded (some e) f (proto ∷ protos) s g t = g
    set_raw-IsGuarded none f (proto ∷ protos) s g t =
        set_some-IsGuarded f _ s g
          (admit_all-IsAdmitted s.diff _ (decode_all-Decoded (proto ∷ protos)))
          (admit_all-Timely s.diff _ (decode_all-Timely (proto ∷ protos) t))

    -- When a call of `SetRaw` returns no error, the values that it has applied, and so broadcasts, are
    -- each signed by the account that they name, have the id of their key and their peer, and come
    -- from the space's owner, by the list of members, where they are watermarks.
    pub set_raw-IsAdmitted :
        (read_keys : Option ℕ) (f : Calls) (protos : List StoreKeyValue) (s s' : Storage C)
        (r : SetResult)
        → set_raw db d indexes st read_keys f protos s ≡ (s', ok r)
        → All IsAdmitted r.applied
    unfolding set_raw
    set_raw-IsAdmitted read_keys f protos s s' r h =
        subst (Applied db laws IsAdmitted) h (applied read_keys protos)
      where
        applied :
            (read_keys : Option ℕ) (protos : List StoreKeyValue)
            → Applied db laws IsAdmitted (set_raw db d indexes st read_keys f protos s)
        applied e [] = tt
        applied (some e) (proto ∷ protos) = tt
        applied none (proto ∷ protos) =
            set_some-Applied db laws IsAdmitted f _ s
              (admit_all-IsAdmitted s.diff _ (decode_all-Decoded (proto ∷ protos)))
