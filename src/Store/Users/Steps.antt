-- ===== src/Store/Users/Steps.antt =====
-- The steps of one-time codes that are claimed one after another.
use tunploy.Common.{ℕ, ◌≤◌, ◌≡◌, refl, false, List, [], ◌∷◌, arith, any, update_where, All}
use tunploy.Store.Users.{User, Users, can_claim, claim_totp_step}

-- Every user with the ID has used that step or a later one.
abbrev IsUsed : ℕ → ℕ → List User → Type 0
IsUsed id step = All (λ (u : User). u.id ≡ id → step ≤ u.totp_last_step)

abbrev claim_in : ℕ → ℕ → List User → List User
claim_in id step = update_where (can_claim id step) (λ u. record u { totp_last_step = step })

claimed-IsUsed : (id step : ℕ) (us : List User) → IsUsed id step (claim_in id step us)
claimed-IsUsed id step [] = tt
claimed-IsUsed id step (u ∷ us) = ((λ e. ground arith), claimed-IsUsed id step us)

still-IsUsed :
    (id step id' step' : ℕ) (us : List User)
    → IsUsed id step us
    → IsUsed id step (claim_in id' step' us)
still-IsUsed id step id' step' [] h = tt
still-IsUsed id step id' step' (u ∷ us) h =
    ((λ e. let k = h.0 in ground arith), still-IsUsed id step id' step' us h.1)

refused_of :
    (id step step' : ℕ) (us : List User)
    → IsUsed id step us
    → step' ≤ step
    → any (can_claim id step') us ≡ false
refused_of id step step' [] h k = refl
refused_of id step step' (u ∷ us) h k =
    let f = h.0 in let rest = refused_of id step step' us h.1 k in ground arith

-- Claims by any users, one after another.
pub claim_all : Users → List (ℕ × ℕ) → Users
claim_all t [] = t
claim_all t ((id, step) ∷ claims) = claim_all (claim_totp_step t id step).1 claims

claim_all-IsUsed :
    (id step : ℕ) (t : Users) (claims : List (ℕ × ℕ))
    → IsUsed id step t.users
    → IsUsed id step (claim_all t claims).users
unfolding claim_all claim_totp_step
claim_all-IsUsed id step t [] h = h
claim_all-IsUsed id step t ((id', step') ∷ claims) h =
    claim_all-IsUsed id step (claim_totp_step t id' step').1 claims
      (still-IsUsed id step id' step' t.users h)

-- Once a user's step was claimed, that step and every earlier one is refused to the user, after any
-- further claims of anyone: no code works twice.
pub claim_totp_step-once :
    (t : Users) (id step step' : ℕ) (claims : List (ℕ × ℕ))
    → step' ≤ step
    → (claim_totp_step (claim_all (claim_totp_step t id step).1 claims) id step').0 ≡ false
unfolding claim_totp_step
claim_totp_step-once t id step step' claims h =
    refused_of id step step' (claim_all (claim_totp_step t id step).1 claims).users
      (claim_all-IsUsed id step (claim_totp_step t id step).1 claims
        (claimed-IsUsed id step t.users))
      h
