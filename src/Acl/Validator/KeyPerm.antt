-- ===== src/Acl/Validator/KeyPerm.antt =====
-- `validateReadKeyChange` compares the key holders as multisets: sorting and comparing decides
-- whether one list is a permutation of the other.
use mathlib.Core.Logic.{∥∥₁_elim}
use mathlib.Core.HLevel.{hedberg}
use mathlib.Core.List.{Perm, Permᴰ}
use mathlib.Core.List.Perm
use native.Mathlib.Decide.{ℕ_discrete}
use any_sync.Common.{
  ℕ, suc, ◌≡◌, ◌↔◌, refl, sym, ap, ap₂, ◌∙◌, true, false, List, [], ◌∷◌, some, arith, leb, length,
  ok, Bool-cases, inl, inr,
}
use any_sync.Common.Assoc.{values}
use any_sync.Acl.Model.{AclState, AclReadKeyChange, KeyEnv}
use any_sync.Acl.Validator.KeyChange.{
  equal, same_keys, identities, active_users, active_invites, check_read_key_change, is_nil,
}
use any_sync.Common.Sort.{insert_sorted, sort}

insert_sorted-perm : (x : ℕ) (ys : List ℕ) → Perm (insert_sorted x ys) (x ∷ ys)
unfolding insert_sorted
insert_sorted-perm x [] = Perm.refl (x ∷ [])
insert_sorted-perm x (y ∷ ys) = elim (Bool-cases (leb x y)) [
  | inl le ↦ rw le (Perm.refl _)
  | inr gt ↦ rw gt (Perm.trans (Perm.cons y (insert_sorted-perm x ys)) (Perm.swap x y ys))
]

sort-perm : (xs : List ℕ) → Perm (sort xs) xs
unfolding sort
sort-perm [] = Perm.refl []
sort-perm (x ∷ xs) = Perm.trans (insert_sorted-perm x (sort xs)) (Perm.cons x (sort-perm xs))

insert_sorted_comm :
    (a b : ℕ) (l : List ℕ)
    → insert_sorted a (insert_sorted b l) ≡ insert_sorted b (insert_sorted a l)
unfolding insert_sorted
insert_sorted_comm a b [] = ground arith
insert_sorted_comm a b (x ∷ l) = ground (arith, insert_sorted_comm a b l)

sort-Permᴰ : {xs ys : List ℕ} → Permᴰ xs ys → sort xs ≡ sort ys
unfolding sort
sort-Permᴰ Permᴰ.nil = refl
sort-Permᴰ (Permᴰ.cons e p) = ap₂ insert_sorted e (sort-Permᴰ p)
sort-Permᴰ (Permᴰ.swap {a} {b} {a'} {b'} {l} e e') =
    insert_sorted_comm a b (sort l) ∙ ap₂ (λ x y. insert_sorted x (insert_sorted y (sort l))) e' e
sort-Permᴰ (Permᴰ.trans p q) = sort-Permᴰ p ∙ sort-Permᴰ q

equal_sound : (xs ys : List ℕ) → equal xs ys ≡ true → xs ≡ ys
unfolding equal
equal_sound [] [] h = refl
equal_sound [] (y ∷ ys) h = cc
equal_sound (x ∷ xs) [] h = cc
equal_sound (x ∷ xs) (y ∷ ys) h = ground (arith, equal_sound xs ys)

equal_refl : (xs : List ℕ) → equal xs xs ≡ true
unfolding equal
equal_refl [] = refl
equal_refl (x ∷ xs) = ground (arith, equal_refl xs)

List_ℕ-discrete : Discrete (List ℕ)
List_ℕ-discrete = hlevel ℕ_discrete

sort-eq_of_perm : {xs ys : List ℕ} → Perm xs ys → sort xs ≡ sort ys
sort-eq_of_perm {xs} {ys} p = ∥∥₁_elim p (hedberg List_ℕ-discrete (sort xs) (sort ys)) sort-Permᴰ

perm_of_sort-eq : {xs ys : List ℕ} → sort xs ≡ sort ys → Perm xs ys
perm_of_sort-eq {xs} {ys} e = Perm.trans (Perm.symm (sort-perm xs)) (rw (← e) at (sort-perm ys))

length-insert_sorted : (x : ℕ) (ys : List ℕ) → length (insert_sorted x ys) ≡ suc (length ys)
unfolding insert_sorted
length-insert_sorted x [] = refl
length-insert_sorted x (y ∷ ys) = ground (arith, length-insert_sorted x ys)

length-sort : (xs : List ℕ) → length (sort xs) ≡ length xs
unfolding sort
length-sort [] = refl
length-sort (x ∷ xs) = omega (arith, length-insert_sorted x (sort xs), length-sort xs)

length-eq_of_perm : {xs ys : List ℕ} → Perm xs ys → length xs ≡ length ys
length-eq_of_perm {xs} {ys} p =
    sym (length-sort xs) ∙ (ap length (sort-eq_of_perm p) ∙ length-sort ys)

-- The comparison passes exactly when both lists of keys are permutations of one another.
pub same_keys_iff :
    (au uu ai ui : List ℕ) → (same_keys au uu ai ui ≡ ok tt) ↔ (Perm au uu × Perm ai ui)
unfolding same_keys
same_keys_iff au uu ai ui = (
  λ h.
      let equal_u : equal (sort au) (sort uu) ≡ true = ground arith in
      let equal_i : equal (sort ai) (sort ui) ≡ true = ground arith in
      (perm_of_sort-eq (equal_sound _ _ equal_u), perm_of_sort-eq (equal_sound _ _ equal_i)),
  λ p.
      let equal_u : equal (sort au) (sort uu) ≡ true =
        rw (sort-eq_of_perm p.0) (equal_refl (sort uu)) in
      let equal_i : equal (sort ai) (sort ui) ≡ true =
        rw (sort-eq_of_perm p.1) (equal_refl (sort ui)) in
      ground (arith, length-eq_of_perm p.0, length-eq_of_perm p.1),
)

module _ (env : KeyEnv) where
  -- A read key change whose keys all decode and whose encrypted keys are there passes exactly when the
  -- accounts it carries a key for are a permutation of the accounts with a role that are not being
  -- removed, and its invites one of the invites that anyone can join by.
  pub check_read_key_change_iff :
      (st : AclState) (ch : AclReadKeyChange) (removed users invites : List ℕ) {mk : ℕ}
      → env.pub_key_from_proto ch.metadata_pub_key ≡ some mk
      → is_nil ch.encrypted_metadata_priv_key ≡ false
      → is_nil ch.encrypted_old_read_key ≡ false
      → identities env ch.account_keys ≡ ok users
      → identities env ch.invite_keys ≡ ok invites
      → (check_read_key_change env st ch removed ≡ ok tt) ↔ (
          Perm (active_users removed (values st.account_states)) users
          × Perm (active_invites (values st.invites)) invites)
  unfolding check_read_key_change
  check_read_key_change_iff st ch removed users invites mk a b us is =
      let passes : check_read_key_change env st ch removed
          ≡ same_keys (active_users removed (values st.account_states)) users
              (active_invites (values st.invites)) invites =
        ground arith in
      rw passes (
        same_keys_iff (active_users removed (values st.account_states)) users
          (active_invites (values st.invites)) invites)
