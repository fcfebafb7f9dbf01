-- ===== src/Acl/Builder/Reading.antt =====
-- What the builder returns reads back (aclrecordbuilder.go).
use any_sync.Common.{
  arith, or_err-eq-ok, ◌≡◌, sym, ap, subst, true, List, Option, some, ok, guard, or_err, >>=-eq-ok,
  ok-injective, ◌∙◌,
}
use any_sync.Acl.Model.{
  Bytes, bad_key, bad_encoding, invalid_signature, AclContentValue, AclRecord, acl_data, KeyEnv,
}
use any_sync.Acl.Builder.{
  Record, RawRecord, SignEnv, AclRecordBuilder, unmarshall, preflight_check, build_records,
}
use any_sync.Acl.Builder.Covers.{Decodes}

-- The decoders read what the encoders write.
pub record Codecs (env : KeyEnv) (signs : SignEnv) : Type 0 where
  pub keys : Decodes env
  pub records :
      (r : Record) (b : Bytes) → signs.marshal_record r ≡ some b → signs.unmarshal_record b ≡ some r

-- Contents that the encoder keeps apart from all others, so not those with a payload that is there and
-- empty, which it writes as one that is not there.
abbrev pub ReadsBack : KeyEnv → SignEnv → List AclContentValue → Type 0
ReadsBack env signs contents =
    (b : Bytes)
    → signs.marshal_acl_data contents ≡ some b
    → env.unmarshal_acl_data b ≡ some contents

-- What a built record decodes to.
pub record IsOurs (env : KeyEnv) (signs : SignEnv) (b : AclRecordBuilder)
    (contents : List AclContentValue) (raw : RawRecord) (rec : AclRecord) : Type 0 where
  pub by_us : rec.identity ≡ env.get_public b.sign_key
  pub holds : rec.model ≡ acl_data contents
  pub follows : rec.prev_id ≡ b.state.last_record_id
  pub named : signs.new_cid raw.payload ≡ some rec.id
  pub signed : env.verify rec.identity raw.payload raw.signature ≡ some true

same_some : {A : Type 0} (o : Option A) (a b : A) → o ≡ some a → o ≡ some b → a ≡ b
same_some o a b h k = cc

module _ (env : KeyEnv) (signs : SignEnv) (codecs : Codecs env signs) where
  -- A payload that decodes to a record of ours, and the check that it passed.
  record Built (b : AclRecordBuilder) (contents : List AclContentValue) (raw : RawRecord)
      : Type 0 where
    bytes : Bytes
    proto_key : Bytes
    marshalled : signs.marshal_acl_data contents ≡ some bytes
    ours : env.marshall (env.get_public b.sign_key) ≡ some proto_key
    payload :
        signs.marshal_record (record {
          prev_id = b.state.last_record_id;
          identity = proto_key;
          raw_data = bytes;
          timestamp = signs.now;
        })
        ≡ some raw.payload
    passed : preflight_check env signs b.state raw ≡ ok tt

  built :
      (b : AclRecordBuilder) (contents : List AclContentValue) (raw : RawRecord)
      → build_records env signs b contents ≡ ok raw
      → Built b contents raw
  unfolding build_records
  built b contents raw h =
      let (bytes, hb, h1) = >>=-eq-ok (or_err (signs.marshal_acl_data contents) bad_encoding) _ h in
      let (proto_key, hk, h2) =
        >>=-eq-ok (or_err (env.marshall (env.get_public b.sign_key)) bad_key) _ h1 in
      let (payload, hp, h3) = >>=-eq-ok (or_err (signs.marshal_record _) bad_encoding) _ h2 in
      let (signature, hs, h4) = >>=-eq-ok (or_err (signs.sign b.sign_key payload) bad_key) _ h3 in
      let (_, passed, h5) = >>=-eq-ok (preflight_check env signs b.state _) _ h4 in
      let e = ok-injective h5 in
      record {
        bytes = bytes;
        proto_key = proto_key;
        marshalled = or_err-eq-ok (signs.marshal_acl_data contents) bad_encoding bytes hb;
        ours = or_err-eq-ok (env.marshall (env.get_public b.sign_key)) bad_key proto_key hk;
        payload = or_err-eq-ok _ bad_encoding payload hp ∙ ap (λ x. some x.payload) e;
        passed = ap (preflight_check env signs b.state) (sym e) ∙ passed;
      }

  decoded-IsOurs :
      (b : AclRecordBuilder) (contents : List AclContentValue) (raw : RawRecord) (rec : AclRecord)
      → ReadsBack env signs contents
      → Built b contents raw
      → unmarshall env signs raw ≡ ok rec
      → IsOurs env signs b contents raw rec
  unfolding unmarshall
  decoded-IsOurs b contents raw rec back made h =
      let (r, hr, h1) = >>=-eq-ok (or_err (signs.unmarshal_record raw.payload) bad_encoding) _ h in
      let (k, hk, h2) = >>=-eq-ok (or_err (env.pub_key_from_proto r.identity) bad_key) _ h1 in
      let (cs, hc, h3) = >>=-eq-ok (or_err (env.unmarshal_acl_data r.raw_data) bad_encoding) _ h2 in
      let (valid, hv, h4) =
        >>=-eq-ok (or_err (env.verify k raw.payload raw.signature) bad_key) _ h3 in
      let (_, checked, h5) = >>=-eq-ok (guard valid invalid_signature) _ h4 in
      let (id, hi, h6) = >>=-eq-ok (or_err (signs.new_cid raw.payload) bad_encoding) _ h5 in
      let read = or_err-eq-ok (signs.unmarshal_record raw.payload) bad_encoding r hr in
      let is_it = same_some _ _ r (codecs.records _ raw.payload made.payload) read in
      let key_read = or_err-eq-ok (env.pub_key_from_proto r.identity) bad_key k hk in
      let key_wrote = codecs.keys (env.get_public b.sign_key) made.proto_key made.ours in
      let key =
        same_some _ k _ key_read
          (ap (λ x. env.pub_key_from_proto x.identity) (sym is_it) ∙ key_wrote) in
      let cs_read = or_err-eq-ok (env.unmarshal_acl_data r.raw_data) bad_encoding cs hc in
      let cs_wrote = back made.bytes made.marshalled in
      let values =
        same_some _ cs _ cs_read
          (ap (λ x. env.unmarshal_acl_data x.raw_data) (sym is_it) ∙ cs_wrote) in
      let holds_good : valid ≡ true = ground arith in
      subst (IsOurs env signs b contents raw) (ok-injective h6) record {
        by_us = key;
        holds = ap acl_data values;
        follows = sym (ap (λ x. x.prev_id) is_it);
        named = or_err-eq-ok (signs.new_cid raw.payload) bad_encoding id hi;
        signed =
            or_err-eq-ok (env.verify k raw.payload raw.signature) bad_key valid hv
            ∙ ap some holds_good;
      }

  -- A record that is built unmarshals, to one by our own account, with the contents given, after the last
  -- record, with the identifier of its payload, and its signature verifies with our key. This assumes that the
  -- decoders of keys and records read what the encoders write, and that of contents these contents.
  pub unmarshall-build_records :
      (b : AclRecordBuilder) (contents : List AclContentValue) (raw : RawRecord)
      → ReadsBack env signs contents
      → build_records env signs b contents ≡ ok raw
      → (rec : AclRecord) × (unmarshall env signs raw ≡ ok rec)
        × IsOurs env signs b contents raw rec
  unfolding preflight_check
  unmarshall-build_records b contents raw back h =
      let made = built b contents raw h in
      let (rec, hu, _) = >>=-eq-ok (unmarshall env signs raw) _ made.passed in
      (rec, hu, decoded-IsOurs b contents raw rec back made hu)
