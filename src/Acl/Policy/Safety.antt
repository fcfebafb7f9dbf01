-- ===== src/Acl/Policy/Safety.antt =====
-- What every sequence of permitted changes keeps.
use any_sync.Common.{
  ℕ, ◌≡◌, ◌⊎◌, inl, inr, true, false, Option, none, some, arith, ◌==◌, if◌then◌else◌, Bool-cases,
}
use any_sync.Acl.Permissions.{
  AclPermissions, owner, no_permissions, is_owner, is_guest, is_less_or_equal,
  is_less_or_equal-is_owner,
}
use any_sync.Acl.Policy.{
  View, Granting, PolicyStep, PolicySteps, keep, assign, accept, join, transfer, issue, withdraw,
  here, next,
}

abbrev pub IsOffer : Option AclPermissions → Type 0
IsOffer none = Unit {0}
IsOffer (some q) = (is_owner q ≡ false) × (no_permissions q ≡ false) × (is_guest q ≡ false)

-- At most one account is the owner, and no open invite makes an owner, a guest or a nobody.
pub record IsSafe (v : View) : Type 0 where
  pub one_owner : (a b : ℕ) → is_owner (v.role a) ≡ true → is_owner (v.role b) ≡ true → a ≡ b
  pub offers : (i : ℕ) → IsOffer (v.offer i)

set_role-one_owner :
    (k : ℕ) (p ra rb ra' rb' : AclPermissions) (a b : ℕ)
    → (is_owner ra ≡ true → is_owner rb ≡ true → a ≡ b)
    → is_owner p ≡ false
    → ra' ≡ (if k == a then p else ra)
    → rb' ≡ (if k == b then p else rb)
    → is_owner ra' ≡ true
    → is_owner rb' ≡ true
    → a ≡ b
set_role-one_owner k p ra rb ra' rb' a b old np ea eb ha hb = ground arith

offers-transport : {o o' : Option AclPermissions} → o' ≡ o → IsOffer o → IsOffer o'
offers-transport e h = rw e h

module _ {v w : View} where
  pub set_role-IsSafe :
      (k : ℕ) (p : AclPermissions)
      → is_owner p ≡ false
      → ((j : ℕ) → w.role j ≡ (if k == j then p else v.role j))
      → ((j : ℕ) → w.offer j ≡ v.offer j)
      → IsSafe v
      → IsSafe w
  set_role-IsSafe k p np r o s = record {
    one_owner =
        λ a b ha hb. set_role-one_owner k p _ _ _ _ a b (s.one_owner a b) np (r a) (r b) ha hb;
    offers = λ i. offers-transport (o i) (s.offers i);
  }

transfer-one_owner :
    (author k : ℕ) (p r0 rk ra rb ra' rb' : AclPermissions) (a b : ℕ)
    → is_owner r0 ≡ true
    → is_owner p ≡ false
    → (is_owner ra ≡ true → author ≡ a)
    → (is_owner rb ≡ true → author ≡ b)
    → ra' ≡ (if k == a then owner else if author == a then p else ra)
    → rb' ≡ (if k == b then owner else if author == b then p else rb)
    → is_owner ra' ≡ true
    → is_owner rb' ≡ true
    → a ≡ b
transfer-one_owner author k p r0 rk ra rb ra' rb' a b h0 np sa sb ea eb ha hb = ground arith

change-IsOffer :
    (i j : ℕ) (o oj oj' : Option AclPermissions)
    → IsOffer o
    → IsOffer oj
    → oj' ≡ (if i == j then o else oj)
    → IsOffer oj'
change-IsOffer i j o oj oj' ho hj e = elim (Bool-cases (i == j)) [
  | inl hit ↦ rw (e, hit) ho
  | inr miss ↦ rw (e, miss) hj
]

pub joined-is_owner :
    (p q : AclPermissions)
    → (p ≡ q) ⊎ (is_less_or_equal p q ≡ true)
    → is_owner q ≡ false
    → is_owner p ≡ false
joined-is_owner p q (inl e) h = rw e h
joined-is_owner p q (inr l) h = is_less_or_equal-is_owner p q l

-- Every permitted change keeps at most one owner, and the open invites harmless.
pub PolicyStep-IsSafe :
    {granting : Granting} {author : ℕ} {v w : View}
    → PolicyStep granting author v w
    → IsSafe v
    → IsSafe w
PolicyStep-IsSafe (keep r o) s = record {
  one_owner = λ a b ha hb. s.one_owner a b (rw (← r a) ha) (rw (← r b) hb);
  offers = λ i. offers-transport (o i) (s.offers i);
}
PolicyStep-IsSafe {granting} {author} {v} {w} (assign k p _ _ np _ _ r o) s =
    set_role-IsSafe k p np r o s
PolicyStep-IsSafe {granting} {author} {v} {w} (accept k p _ _ np _ r o) s =
    set_role-IsSafe k p np r o s
PolicyStep-IsSafe {granting} {author} {v} {w} (join i q p _ offered below r o) s =
    set_role-IsSafe author p (joined-is_owner p q below (rw offered at (s.offers i)).0) r o s
PolicyStep-IsSafe {granting} {author} {v} {w} (transfer k p own _ _ np _ r o) s = record {
  one_owner = λ a b ha hb.
      transfer-one_owner author k p (v.role author) (v.role k) _ _ _ _ a b own np
        (s.one_owner author a own) (s.one_owner author b own) (r a) (r b) ha hb;
  offers = λ i. offers-transport (o i) (s.offers i);
}
PolicyStep-IsSafe (issue i q _ nw nn ng _ o r) s = record {
  one_owner = λ a b ha hb. s.one_owner a b (rw (← r a) ha) (rw (← r b) hb);
  offers = λ j. change-IsOffer i j (some q) _ _ (nw, nn, ng) (s.offers j) (o j);
}
PolicyStep-IsSafe (withdraw i _ o r) s = record {
  one_owner = λ a b ha hb. s.one_owner a b (rw (← r a) ha) (rw (← r b) hb);
  offers = λ j. change-IsOffer i j none _ _ tt (s.offers j) (o j);
}

pub PolicySteps-IsSafe :
    {granting : Granting} {author : ℕ} {v w : View}
    → PolicySteps granting author v w
    → IsSafe v
    → IsSafe w
PolicySteps-IsSafe here s = s
PolicySteps-IsSafe (next steps step) s = PolicyStep-IsSafe step (PolicySteps-IsSafe steps s)

pub PolicySteps-trans :
    {granting : Granting} {author : ℕ} {u v w : View}
    → PolicySteps granting author u v
    → PolicySteps granting author v w
    → PolicySteps granting author u w
PolicySteps-trans p here = p
PolicySteps-trans p (next q step) = next (PolicySteps-trans p q) step

-- On whichever requests.
abbrev pub Anyone : Granting
Anyone k p = Unit {0}

on_any :
    {granting : Granting} {author : ℕ} {v w : View}
    → PolicyStep granting author v w
    → PolicyStep Anyone author v w
on_any (keep r o) = keep r o
on_any (assign k p a b c d e r o) = assign k p a b c d e r o
on_any (accept k p g a b c r o) = accept k p tt a b c r o
on_any (join i q p a b c r o) = join i q p a b c r o
on_any (transfer k p a b c d e r o) = transfer k p a b c d e r o
on_any (issue i q a b c d e o r) = issue i q a b c d e o r
on_any (withdraw i a o r) = withdraw i a o r

pub PolicySteps-Anyone :
    {granting : Granting} {author : ℕ} {v w : View}
    → PolicySteps granting author v w
    → PolicySteps Anyone author v w
PolicySteps-Anyone here = here
PolicySteps-Anyone (next steps step) = next (PolicySteps-Anyone steps) (on_any step)
