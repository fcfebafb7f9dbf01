-- ===== src/KeyValue/Decode.antt =====
-- What passes the checks of `KeyValueFromProto`.
use any_sync.Common.{
  ℕ, ◌≡◌, refl, Bool, true, false, ◌∷◌, ◌++◌, some, arith, ok, >>=-eq-ok, or_err, or_err-eq-ok,
  subst,
}
use any_sync.Common.Bytes.{same→≡}
use any_sync.KeyValue.{
  KeyValue, Decoder, StoreKeyValue, StoreKeyInner, invalid_encoding, invalid_public_key,
  check_key_value, from_inner, key_value_from_proto, key_peer_id_of, is_empty_text, dash,
}

module _ (d : Decoder) where
  -- The id is made of the key and the peer, and a watermark has its prefix for a key.
  pub record IsChecked (kv : KeyValue) : Type 0 where
    pub keyed : kv.key_peer_id ≡ kv.key ++ (dash ∷ kv.peer_id)
    pub mirrors : is_empty_text kv.delete_prefix ≡ false → kv.key ≡ kv.delete_prefix

  -- Both signatures, of the account and of the peer, are valid for what was signed.
  pub record IsSigned (proto : StoreKeyValue) (kv : KeyValue) : Type 0 where
    pub inner : StoreKeyInner
    pub peer : ℕ
    pub decoded : d.unmarshal_inner proto.value ≡ some inner
    pub peer_key : d.unmarshal_key inner.peer ≡ some peer
    pub identity_key : d.unmarshal_key inner.identity ≡ some kv.identity_pub_key
    pub by_identity : d.verify kv.identity_pub_key proto.value proto.identity_signature ≡ true
    pub by_peer : d.verify peer proto.value proto.peer_signature ≡ true
    pub is_inner : kv ≡ from_inner d proto inner kv.identity_pub_key peer

  checked :
      (verify : Bool) (identity peer : ℕ) (kv kv' : KeyValue)
      → check_key_value d verify identity peer kv ≡ ok kv'
      → (kv ≡ kv')
        × IsChecked kv
        × (verify ≡ true → d.verify identity kv.value.value kv.value.identity_signature ≡ true)
        × (verify ≡ true → d.verify peer kv.value.value kv.value.peer_signature ≡ true)
  unfolding check_key_value key_peer_id_of
  checked verify identity peer kv kv' h = (
    ground arith,
    record {
      keyed = same→≡ _ _ (ground arith);
      mirrors = λ e. same→≡ kv.key kv.delete_prefix (ground arith);
    },
    (λ e. ground arith),
    (λ e. ground arith),
  )

  -- A value that is decoded with its checks has the id of its key and its peer, a watermark among them
  -- has its prefix for a key, and both signatures are valid: of the account and of the peer that the
  -- signed bytes name, for these bytes. But for its id and the signatures, the value is made of them.
  pub key_value_from_proto-IsSigned :
      (proto : StoreKeyValue) (kv : KeyValue)
      → key_value_from_proto d proto true ≡ ok kv
      → IsChecked kv × IsSigned proto kv
  unfolding key_value_from_proto
  key_value_from_proto-IsSigned proto kv h =
      let first = >>=-eq-ok (or_err (d.unmarshal_inner proto.value) invalid_encoding) _ h in
      let second =
        >>=-eq-ok (or_err (d.unmarshal_key first.0.identity) invalid_public_key) _ first.2 in
      let third = >>=-eq-ok (or_err (d.unmarshal_key first.0.peer) invalid_public_key) _ second.2 in
      let inner : StoreKeyInner = first.0 in
      let made : KeyValue = from_inner d proto inner second.0 third.0 in
      let c = checked true second.0 third.0 made kv third.2 in
      (
        subst IsChecked c.0 c.1,
        subst (IsSigned proto) c.0 record {
          inner = inner;
          peer = third.0;
          decoded = or_err-eq-ok _ _ _ first.1;
          peer_key = or_err-eq-ok _ _ _ third.1;
          identity_key = or_err-eq-ok _ _ _ second.1;
          by_identity = c.2 refl;
          by_peer = c.3 refl;
          is_inner = refl;
        },
      )
