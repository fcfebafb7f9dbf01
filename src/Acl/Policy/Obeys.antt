-- ===== src/Acl/Policy/Obeys.antt =====
-- A change of the state that the policy permits, and that leaves the validator as it is.
use any_sync.Common.{ℕ, ◌≡◌, refl, ◌∙◌}
use any_sync.Acl.Model.{AclState}
use any_sync.Acl.Policy.{view, Granting, PolicyStep, PolicySteps, keep, here, next}
use any_sync.Acl.Policy.Safety.{PolicySteps-trans}
use any_sync.Acl.Policy.Access.{SameAccess, SameRoles-accounts, SameOffers-invites}

abbrev pub Obeys : Granting → ℕ → AclState → AclState → Type 0
Obeys granting author st st' =
    PolicyStep granting author (view st) (view st') × (st'.content_validator ≡ st.content_validator)

abbrev pub ObeysMany : Granting → ℕ → AclState → AclState → Type 0
ObeysMany granting author st st' =
    PolicySteps granting author (view st) (view st')
    × (st'.content_validator ≡ st.content_validator)

pub Obeys-once :
    {granting : Granting} (author : ℕ) (st st' : AclState)
    → Obeys granting author st st'
    → ObeysMany granting author st st'
Obeys-once author st st' (step, v) = (next here step, v)

pub ObeysMany-trans :
    {granting : Granting} (author : ℕ) (st st' st'' : AclState)
    → ObeysMany granting author st st'
    → ObeysMany granting author st' st''
    → ObeysMany granting author st st''
ObeysMany-trans author st st' st'' (p, v) (q, w) = (PolicySteps-trans p q, w ∙ v)

pub SameAccess-Obeys :
    {granting : Granting} (author : ℕ) {st st' : AclState}
    → SameAccess st st'
    → Obeys granting author st st'
SameAccess-Obeys author {st} {st'} s =
    (keep (SameRoles-accounts st st' s.accounts) (SameOffers-invites st st' s.invites), s.validator)

pub Obeys-eq :
    {granting : Granting} (author : ℕ) (st : AclState) {s t : AclState}
    → s ≡ t
    → Obeys granting author st s
    → Obeys granting author st t
Obeys-eq author st e o = rw (← e) o

pub unchanged : {granting : Granting} (author : ℕ) (st : AclState) → Obeys granting author st st
unchanged author st = (keep (λ j. refl) (λ j. refl), refl)
