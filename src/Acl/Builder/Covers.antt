-- ===== src/Acl/Builder/Covers.antt =====
-- The new read key that the builder makes reaches whom the validator wants it to reach
-- (aclrecordbuilder.go, validator.go).
use mathlib.Core.List.Perm
use any_sync.Common.{
  or_err-eq-ok, ℕ, ◌≡◌, refl, ap, inl, inr, true, false, not, ◌||◌, List, [], ◌∷◌, some,
  if◌then◌else◌, contains, arith, Bool-cases, All, ok, or_err, >>=-eq-ok, ok-injective,
}
use any_sync.Common.Assoc.{Assoc, values}
use any_sync.Acl.Permissions.{no_permissions}
use any_sync.Acl.Model.{
  Bytes, bad_key, panic, AclState, AccountState, Invite, anyone_can_join, AclEncryptedReadKey,
  AclReadKeyChange, KeyEnv,
}
use any_sync.Acl.State.{same_type}
use any_sync.Acl.Validator.KeyChange.{
  check_read_key_change, active_users, active_invites, identities,
}
use any_sync.Acl.Validator.KeyPerm.{check_read_key_change_iff}
use any_sync.Acl.Builder.{
  SignEnv, ReadKeyChangePayload, key_for, keys_for_accounts, keys_for_invites,
  build_read_key_change, current_read_key,
}

-- `PubKeyFromProto` reads what `Marshall` writes.
abbrev pub Decodes : KeyEnv → Type 0
Decodes env = (k : ℕ) (b : Bytes) → env.marshall k ≡ some b → env.pub_key_from_proto b ≡ some k

-- An account stands in the map under its key.
abbrev pub IsKeyed : Assoc AccountState → Type 0
IsKeyed = All λ e. e.0 ≡ e.1.pub_key

-- The invites that are left once some have been revoked.
unfoldable pub without : List ℕ → Assoc Invite → Assoc Invite
unfolding contains
without revoked [] = []
without revoked ((id, i) ∷ rest) =
    let others = without revoked rest in if contains id revoked then others else (id, i) ∷ others

module _ (env : KeyEnv) (signs : SignEnv) (decodes : Decodes env) where
  key_for-identity :
      (proto_key : Bytes) (receiver : ℕ) (k : AclEncryptedReadKey)
      → key_for env signs proto_key receiver ≡ ok k
      → env.pub_key_from_proto k.identity ≡ some receiver
  unfolding key_for
  key_for-identity proto_key receiver k h =
      let (b, hb, h1) = >>=-eq-ok (or_err (env.marshall receiver) bad_key) _ h in
      let (enc, he, h2) = >>=-eq-ok (or_err (signs.pub_encrypt receiver proto_key) bad_key) _ h1 in
      let e : b ≡ k.identity = ap (λ x. x.identity) (ok-injective h2) in
      rw (← e) (decodes receiver b (or_err-eq-ok (env.marshall receiver) bad_key b hb))

  identities-cons :
      (k : AclEncryptedReadKey) (ks : List AclEncryptedReadKey) (receiver : ℕ) (users : List ℕ)
      → env.pub_key_from_proto k.identity ≡ some receiver
      → identities env ks ≡ ok users
      → identities env (k ∷ ks) ≡ ok (receiver ∷ users)
  unfolding identities
  identities-cons k ks receiver users e h = rw (e, h) refl

  accounts_reached :
      (removed : List ℕ) (proto_key : Bytes) (accounts : Assoc AccountState)
      (ks : List AclEncryptedReadKey)
      → IsKeyed accounts
      → keys_for_accounts env signs removed proto_key accounts ≡ ok ks
      → identities env ks ≡ ok (active_users removed (values accounts))
  unfolding keys_for_accounts active_users identities
  accounts_reached removed proto_key [] ks keyed h = rw (← ok-injective h) refl
  accounts_reached removed proto_key ((identity, st) ∷ rest) ks keyed h =
      elim (Bool-cases (contains identity removed || no_permissions st.permissions)) [
        | inl passed_over ↦
            let left_out : (no_permissions st.permissions || contains st.pub_key removed) ≡ true =
              rw (← keyed.0) (ground (arith, passed_over)) in
            rw left_out (accounts_reached removed proto_key rest ks keyed.1 (rw passed_over at h))
        | inr reached ↦
            let taken : (no_permissions st.permissions || contains st.pub_key removed) ≡ false =
              rw (← keyed.0) (ground (arith, reached)) in
            let h' = rw reached at h in
            let (k, hk, h1) = >>=-eq-ok (key_for env signs proto_key st.pub_key) _ h' in
            let (others, ho, h2) =
              >>=-eq-ok (keys_for_accounts env signs removed proto_key rest) _ h1 in
            rw (taken, ← ok-injective h2)
              (identities-cons k others st.pub_key _ (key_for-identity proto_key st.pub_key k hk)
                (accounts_reached removed proto_key rest others keyed.1 ho))
      ]

  invites_reached :
      (revoked : List ℕ) (proto_key : Bytes) (invites : Assoc Invite)
      (ks : List AclEncryptedReadKey)
      → keys_for_invites env signs revoked proto_key invites ≡ ok ks
      → identities env ks ≡ ok (active_invites (values (without revoked invites)))
  unfolding keys_for_invites active_invites identities without
  invites_reached revoked proto_key [] ks h = rw (← ok-injective h) refl
  invites_reached revoked proto_key ((id, i) ∷ rest) ks h =
      elim (Bool-cases (contains id revoked)) [
        | inl gone ↦
            let past : (not (same_type i.type anyone_can_join) || contains id revoked) ≡ true =
              ground (arith, gone) in
            rw gone (invites_reached revoked proto_key rest ks (rw past at h))
        | inr stays ↦ elim (Bool-cases (same_type i.type anyone_can_join)) [
          | inr closed ↦
              let past : (not (same_type i.type anyone_can_join) || contains id revoked) ≡ true =
                ground (arith, closed) in
              rw (stays, closed) (invites_reached revoked proto_key rest ks (rw past at h))
          | inl anyone ↦
              let reached : (not (same_type i.type anyone_can_join) || contains id revoked)
                  ≡ false =
                ground (arith, anyone, stays) in
              let h' = rw reached at h in
              let (k, hk, h1) = >>=-eq-ok (key_for env signs proto_key i.key) _ h' in
              let (others, ho, h2) =
                >>=-eq-ok (keys_for_invites env signs revoked proto_key rest) _ h1 in
              rw (stays, anyone, ← ok-injective h2)
                (identities-cons k others i.key _ (key_for-identity proto_key i.key k hk)
                  (invites_reached revoked proto_key rest others ho))
        ]
      ]

  -- A read key change that is built passes the validator's check, on the state as it will be: without
  -- the invites revoked, and with the accounts named being removed. This assumes that public keys decode from
  -- what they encode to, and that accounts stand in the map under their keys.
  pub check-build_read_key_change :
      (st : AclState) (payload : ReadKeyChangePayload) (removed revoked : List ℕ)
      (ch : AclReadKeyChange)
      → IsKeyed st.account_states
      → build_read_key_change env signs st payload removed revoked ≡ ok ch
      → check_read_key_change env (record st { invites = without revoked st.invites }) ch removed
        ≡ ok tt
  unfolding build_read_key_change
  check-build_read_key_change st payload removed revoked ch keyed h =
      let (proto_key, _, h1) =
        >>=-eq-ok (or_err (signs.sym_marshall payload.read_key) bad_key) _ h in
      let (users, hu, h2) =
        >>=-eq-ok (keys_for_accounts env signs removed proto_key st.account_states) _ h1 in
      let (invites, hi, h3) =
        >>=-eq-ok (keys_for_invites env signs revoked proto_key st.invites) _ h2 in
      let (mk, hm, h4) =
        >>=-eq-ok (or_err (env.marshall (env.get_public payload.metadata_key)) bad_key) _ h3 in
      let (mk_priv, _, h5) =
        >>=-eq-ok (or_err (signs.priv_marshall payload.metadata_key) bad_key) _ h4 in
      let (priv, _, h6) =
        >>=-eq-ok (or_err (env.sym_encrypt payload.read_key mk_priv) bad_key) _ h5 in
      let (current, _, h7) = >>=-eq-ok (current_read_key st) _ h6 in
      let (cur_key, _, h8) = >>=-eq-ok (or_err current panic) _ h7 in
      let (cur_proto, _, h9) = >>=-eq-ok (or_err (signs.sym_marshall cur_key) bad_key) _ h8 in
      let (old, _, h10) =
        >>=-eq-ok (or_err (env.sym_encrypt payload.read_key cur_proto) bad_key) _ h9 in
      let e = ok-injective h10 in
      let mk_there : env.pub_key_from_proto mk ≡ some (env.get_public payload.metadata_key) =
        decodes (env.get_public payload.metadata_key) mk
          (or_err-eq-ok (env.marshall (env.get_public payload.metadata_key)) bad_key mk hm) in
      rw (← e) (
        (check_read_key_change_iff env (record st { invites = without revoked st.invites }) _
            removed _ _ mk_there refl refl
            (accounts_reached removed proto_key st.account_states users keyed hu)
            (invites_reached revoked proto_key st.invites invites hi)).1
          (Perm.refl _, Perm.refl _))
