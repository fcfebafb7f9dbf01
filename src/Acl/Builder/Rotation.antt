-- ===== src/Acl/Builder/Rotation.antt =====
-- A batch that rotates the read key (`BuildBatchRequest`, aclrecordbuilder.go).
use mathlib.Core.List.{append-nil}
use any_sync.Common.{
  ℕ, ◌≡◌, refl, sym, ap, inl, inr, Bool, true, false, not, ◌&&◌, ◌||◌, List, [], ◌∷◌, ◌++◌, some,
  map, arith, Bool-cases, Result, ok, ◌>>=◌, guard, refuse, or_err, >>=-eq-ok, ok-injective, ◌∙◌,
}
use any_sync.Common.Assoc.{get}
use any_sync.Acl.Permissions.{AclPermissions}
use any_sync.Acl.Model.{
  Bytes, Payload, Error, panic, read_key_change_not_alone, insufficient_permissions,
  no_such_request, no_such_invite, AclState, AclReadKeyChange, AclContentValue, KeyEnv,
}
use any_sync.Acl.Model
use any_sync.Acl.State.{is_join}
use any_sync.Acl.Validator.KeyChange.{check_read_key_change}
use any_sync.Acl.Builder.{SignEnv, ReadKeyChangePayload, build_read_key_change}
use any_sync.Acl.Builder.Contents.{
  we_manage, permission_changes_content, invite_change_content, invite_revoke_content,
  request_accept_content, request_decline_content, account_remove_content,
}
use any_sync.Acl.Builder.Covers.{Decodes, IsKeyed, without, check-build_read_key_change}
use any_sync.Acl.Builder.Batch.{
  BatchRequestPayload, some_of, some_payload, alone, given_key, contents_each, content_if,
  invites_of, batch_additions, batch_rotation, batch_contents,
}

-- What a list that is not there adds.
none_of : {A : Type 0} (xs : List A) → some_of xs ≡ false → xs ≡ []
none_of [] h = refl
none_of (x ∷ xs) h = cc

six_false :
    (a b c d e f : Bool)
    → not (a || b || c || d || e || f) ≡ true
    → (a ≡ false) × (b ≡ false) × (c ≡ false) × (d ≡ false) × (e ≡ false) × (f ≡ false)
six_false a b c d e f h =
    (ground arith, ground arith, ground arith, ground arith, ground arith, ground arith)

content_if-false :
    (b : Bool) (content : Result Error AclContentValue) (cs : List AclContentValue)
    → b ≡ false
    → content_if b content ≡ ok cs
    → cs ≡ []
content_if-false true content cs e h = cc
content_if-false false content cs e h = sym (ok-injective h)

each_none :
    {A : Type 0} (f : A → Result Error AclContentValue) (xs : List A) (cs : List AclContentValue)
    → xs ≡ []
    → contents_each f xs ≡ ok cs
    → cs ≡ []
unfolding contents_each
each_none f [] cs e h = sym (ok-injective h)
each_none f (x ∷ xs) cs e h = cc

joined :
    (a b c d e f g h i e' f' g' : List AclContentValue)
    → a ≡ []
    → b ≡ []
    → c ≡ []
    → d ≡ []
    → e ≡ e'
    → f ≡ f'
    → g ≡ g'
    → h ≡ []
    → i ≡ []
    → a ++ b ++ c ++ d ++ e ++ f ++ g ++ h ++ i ≡ e' ++ f' ++ g'
joined a b c d e f g h i e' f' g' na nb nc nd ee ef eg nh ni =
    rw (na, nb, nc, nd, ee, ef, eg, nh, ni) (append-nil _ ∙ append-nil _)

module _ (env : KeyEnv) (signs : SignEnv) where
  each_revoke :
      (st : AclState) (ids : List ℕ) (cs : List AclContentValue)
      → contents_each (invite_revoke_content env signs st) ids ≡ ok cs
      → cs ≡ map Model.invite_revoke ids
  unfolding contents_each invite_revoke_content
  each_revoke st [] cs h = sym (ok-injective h)
  each_revoke st (id ∷ ids) cs h =
      let (c, hc, h1) = >>=-eq-ok (invite_revoke_content env signs st id) _ h in
      let (rest, hr, h2) =
        >>=-eq-ok (contents_each (invite_revoke_content env signs st) ids) _ h1 in
      let (_, _, h3) = >>=-eq-ok (we_manage st) _ hc in
      let (_, _, h4) = >>=-eq-ok (or_err (get id st.invites) no_such_invite) _ h3 in
      sym (ok-injective h2) ∙ rw (← ok-injective h4, each_revoke st ids rest hr) refl

  each_decline :
      (st : AclState) (ids : List ℕ) (cs : List AclContentValue)
      → contents_each (request_decline_content env signs st) ids ≡ ok cs
      → cs ≡ map Model.request_decline ids
  unfolding contents_each request_decline_content
  each_decline st [] cs h = sym (ok-injective h)
  each_decline st (id ∷ ids) cs h =
      let (c, hc, h1) = >>=-eq-ok (request_decline_content env signs st id) _ h in
      let (rest, hr, h2) =
        >>=-eq-ok (contents_each (request_decline_content env signs st) ids) _ h1 in
      let (_, _, h3) = >>=-eq-ok (we_manage st) _ hc in
      let (r, _, h4) = >>=-eq-ok (or_err (get id st.request_records) no_such_request) _ h3 in
      let (_, _, h5) = >>=-eq-ok (guard (is_join r.type) no_such_request) _ h4 in
      sym (ok-injective h2) ∙ rw (← ok-injective h5, each_decline st ids rest hr) refl

  invites_none :
      (st : AclState) (i : ℕ) (xs : List AclPermissions) (r : List AclContentValue × List ℕ)
      → xs ≡ []
      → invites_of env signs st i xs ≡ ok r
      → r.0 ≡ []
  unfolding invites_of
  invites_none st i [] r e h = sym (ap (λ x. x.0) (ok-injective h))
  invites_none st i (x ∷ xs) r e h = cc

  rotated :
      (st : AclState) (p : BatchRequestPayload) (payload : ReadKeyChangePayload)
      (cs : List AclContentValue)
      → p.read_key_change ≡ some payload
      → batch_rotation env signs st p ≡ ok cs
      → (ch : AclReadKeyChange) × (build_read_key_change env signs st payload [] p.invite_revokes
          ≡ ok ch)
        × (cs ≡ Model.read_key_change ch ∷ [])
  unfolding batch_rotation
  rotated st p payload cs e h =
      let h' : (build_read_key_change env signs st payload [] p.invite_revokes >>= λ rk_change.
      ok (Model.read_key_change rk_change ∷ []))
          ≡ ok cs =
        rw (e, batch_rotation) at h in
      let (ch, hc, h1) =
        >>=-eq-ok (build_read_key_change env signs st payload [] p.invite_revokes) _ h' in
      (ch, hc, sym (ok-injective h1))

  alone_of :
      (p : BatchRequestPayload) (payload : ReadKeyChangePayload)
      → p.read_key_change ≡ some payload
      → refuse (some_payload p.read_key_change && not (alone p)) read_key_change_not_alone ≡ ok tt
      → alone p ≡ true
  unfolding alone
  alone_of p payload e h =
      let tested : refuse (not (alone p)) read_key_change_not_alone ≡ ok tt = rw e at h in
      elim (Bool-cases (alone p)) [
        | inl yes_alone ↦ yes_alone
        | inr others ↦
            let refused : refuse true read_key_change_not_alone ≡ ok tt = rw others at tested in cc
      ]

  -- A batch that rotates the read key declines requests, then revokes invites, and then changes the key, and does no
  -- more; and the change passes the validator's check once the invites are revoked. This assumes that
  -- public keys decode from what they encode to, and that accounts stand in the map under their keys.
  pub batch_contents-rotates :
      (decodes : Decodes env) (st : AclState) (p : BatchRequestPayload)
      (payload : ReadKeyChangePayload) (contents : List AclContentValue) (keys : List ℕ)
      → IsKeyed st.account_states
      → p.read_key_change ≡ some payload
      → batch_contents env signs st p ≡ ok (contents, keys)
      → (ch : AclReadKeyChange) × (contents
          ≡ map Model.request_decline p.declines
            ++ map Model.invite_revoke p.invite_revokes
            ++ Model.read_key_change ch ∷ [])
        × (check_read_key_change env
              (record st { invites = without p.invite_revokes st.invites })
              ch
              []
            ≡ ok tt)
  unfolding batch_contents alone batch_additions
  batch_contents-rotates decodes st p payload contents keys keyed e h =
      let (_, ha, h0) =
        >>=-eq-ok
          (refuse (some_payload p.read_key_change && not (alone p)) read_key_change_not_alone) _
          h in
      let (no_add, no_rem, no_app, no_chg, no_inv, no_new) =
        six_false _ _ _ _ _ _ (alone_of p payload e ha) in
      let (removals, hrem, h1) =
        >>=-eq-ok
          (content_if (some_of p.removals.identities)
            (account_remove_content env signs st p.removals))
          _ h0 in
      let (additions, hadd, h2) = >>=-eq-ok (batch_additions env signs st p) _ h1 in
      let (changes, hchg, h3) =
        >>=-eq-ok
          (content_if (some_of p.changes) (permission_changes_content env signs st p.changes)) _
          h2 in
      let (approvals, happ, h4) =
        >>=-eq-ok
          (contents_each
            (λ a. request_accept_content env signs st a (given_key p.removals.change.read_key))
            p.approvals)
          _ h3 in
      let (declines, hdec, h5) =
        >>=-eq-ok (contents_each (request_decline_content env signs st) p.declines) _ h4 in
      let (revokes, hrev, h6) =
        >>=-eq-ok (contents_each (invite_revoke_content env signs st) p.invite_revokes) _ h5 in
      let (rotation, hrot, h7) = >>=-eq-ok (batch_rotation env signs st p) _ h6 in
      let (invite_changes, hinv, h8) =
        >>=-eq-ok (contents_each (invite_change_content env signs st) p.invite_changes) _ h7 in
      let (new_ones, hnew, h9) = >>=-eq-ok (invites_of env signs st 0 p.new_invites) _ h8 in
      let (ch, hch, made) = rotated st p payload rotation e hrot in
      let e0 = content_if-false _ _ removals no_rem hrem in
      let e1 = content_if-false _ _ additions no_add hadd in
      let e2 = content_if-false _ _ changes no_chg hchg in
      let e3 = each_none _ p.approvals approvals (none_of p.approvals no_app) happ in
      let e4 = each_decline st p.declines declines hdec in
      let e5 = each_revoke st p.invite_revokes revokes hrev in
      let e6 = each_none _ p.invite_changes invite_changes (none_of p.invite_changes no_inv) hinv in
      let e7 = invites_none st 0 p.new_invites new_ones (none_of p.new_invites no_new) hnew in
      (
        ch,
        sym (ap (λ x. x.0) (ok-injective h9))
            ∙ joined _ _ _ _ _ _ _ _ _ _ _ _ e0 e1 e2 e3 e4 e5 made e6 e7,
        check-build_read_key_change env signs decodes st payload [] p.invite_revokes ch keyed hch,
      )
