-- ===== src/Payment/RateLimiter/Window.antt =====
-- The sliding window over a whole history of calls. The latest call comes first, the clocks of the
-- issuer and of Redis agree, and they do not run backwards.
use credentials_issuer.Prelude.{
  ℕ, suc, ◌+◌, ◌*◌, ◌≡◌, ◌≤◌, refl, sym, ap, subst, ◌∙◌, Bool, true, not, List, [], ◌∷◌, Str,
  length, leb, ◌===◌, ◌&&◌, eq-text, eq-text-true, count_where, All, arith, inl, inr, Bool-cases,
  if◌then◌else◌,
}
use credentials_issuer.Config.{IssuerConfig}
use credentials_issuer.Database.{SortedSet}
use credentials_issuer.Payment.RateLimiter.{
  scores_of, store_set, within_window, slide, rate_limit_key, members, count_request, within_budget,
}

pub record RateCall : Type 0 where
  pub reference : Str
  pub at : ℕ

abbrev pub window_ms : IssuerConfig → ℕ
window_ms config = config.rate_limit_window_seconds * 1000

abbrev pub in_window : ℕ → ℕ → ℕ → Bool
in_window w now score = not (leb (score + w) now)

-- The sorted sets after the calls.
pub sets_after : IssuerConfig → List RateCall → List SortedSet
sets_after config [] = []
sets_after config (c ∷ cs) = count_request config c.at c.at c.reference (sets_after config cs)

-- When a reference called.
pub calls_of : Str → List RateCall → List ℕ
calls_of reference [] = []
calls_of reference (c ∷ cs) =
    if c.reference === reference then c.at ∷ calls_of reference cs else calls_of reference cs

-- When it called and was within its budget.
pub allowed_of : IssuerConfig → Str → List RateCall → List ℕ
allowed_of config reference [] = []
allowed_of config reference (c ∷ cs) =
    if c.reference === reference
      && within_budget config c.at c.at c.reference (sets_after config cs)
    then c.at ∷ allowed_of config reference cs
    else allowed_of config reference cs

abbrev pub Before : ℕ → List RateCall → Type 0
Before now cs = All (λ (c : RateCall). c.at ≤ now) cs

abbrev pub Descending : List RateCall → Type 0
Descending [] = Unit
Descending (c ∷ cs) = Before c.at cs × Descending cs

calls_of-Before :
    (reference : Str) (now : ℕ) (cs : List RateCall)
    → Before now cs
    → All (λ t. t ≤ now) (calls_of reference cs)
unfolding calls_of
calls_of-Before reference now [] h = tt
calls_of-Before reference now (c ∷ cs) (hc, h) = elim (Bool-cases (c.reference === reference)) [
  | inl same ↦ rw same (hc, calls_of-Before reference now cs h)
  | inr other ↦ rw other (calls_of-Before reference now cs h)
]

-- Calls of an expired key are out of the window.
within_window-expired :
    (w last now : ℕ) (ts : List ℕ)
    → All (λ t. t ≤ last) ts
    → last + w ≤ now
    → within_window w now ts ≡ []
unfolding within_window
within_window-expired w last now [] h expired = refl
within_window-expired w last now (t ∷ ts) (ht, h) expired =
    ground (arith, within_window-expired w last now ts h expired)

-- What an earlier call dropped, a later one would have dropped.
within_window-later :
    (w last now : ℕ) (ts : List ℕ)
    → last ≤ now
    → within_window w now (within_window w last ts) ≡ within_window w now ts
unfolding within_window
within_window-later w last now [] h = refl
within_window-later w last now (t ∷ ts) h = ground (arith, within_window-later w last now ts h)

scores_of-store_set :
    (redis_now : ℕ) (key : Str) (z : SortedSet) (zs : List SortedSet)
    → scores_of redis_now key (store_set z zs) ≡ (
        if z.key === key
        then (if leb z.expires_at redis_now then [] else z.scores)
        else scores_of redis_now key zs)
unfolding scores_of store_set
scores_of-store_set redis_now key z [] = refl
scores_of-store_set redis_now key z (y ∷ ys) = ground (
  arith,
  scores_of-store_set redis_now key z ys,
  eq-text y.key z.key,
  eq-text y.key key,
  eq-text z.key key,
)

same_rate_limit_key : (a b : Str) → (rate_limit_key a === rate_limit_key b) ≡ (a === b)
unfolding ◌===◌
same_rate_limit_key a b = refl

module _ (config : IssuerConfig) where
  head_kept :
      (at now : ℕ) (xs ys : List ℕ)
      → within_window (window_ms config) now xs ≡ within_window (window_ms config) now ys
      → within_window (window_ms config) now (at ∷ xs)
        ≡ within_window (window_ms config) now (at ∷ ys)
  unfolding within_window
  head_kept at now xs ys e = rw e

  nothing_kept : (now : ℕ) → within_window (window_ms config) now [] ≡ []
  unfolding within_window
  nothing_kept now = refl

  empty_key :
      (reference : Str) (now : ℕ)
      → scores_of now (rate_limit_key reference) (sets_after config []) ≡ []
  unfolding sets_after scores_of
  empty_key reference now = refl

  -- The members of a key that was not expired when it was looked at after one more call.
  kept_members :
      (reference : Str) (at now : ℕ) (cs : List RateCall)
      → at ≤ now
      → within_window
          (window_ms config)
          at
          (scores_of at (rate_limit_key reference) (sets_after config cs))
        ≡ within_window (window_ms config) at (calls_of reference cs)
      → within_window (window_ms config) now (members config at at reference (sets_after config cs))
        ≡ within_window (window_ms config) now (at ∷ calls_of reference cs)
  unfolding members slide
  kept_members reference at now cs h earlier =
      ap (λ ts. within_window (window_ms config) now (at ∷ ts)) earlier
      ∙ head_kept at now _ _
          (within_window-later (window_ms config) at now (calls_of reference cs) h)

  counted_members :
      (c : RateCall) (cs : List RateCall) (reference : Str) (now : ℕ)
      → scores_of now (rate_limit_key reference) (sets_after config (c ∷ cs)) ≡ (
          if c.reference === reference
          then (if leb (c.at + window_ms config) now
              then []
              else members config c.at c.at c.reference (sets_after config cs))
          else scores_of now (rate_limit_key reference) (sets_after config cs))
  unfolding sets_after count_request
  counted_members c cs reference now =
      scores_of-store_set now (rate_limit_key reference) _ (sets_after config cs)
      ∙ rw (same_rate_limit_key c.reference reference)

  -- Among the members of a reference's key, those in the window are its calls in the window.
  scores_of-sets_after :
      (reference : Str) (now : ℕ) (cs : List RateCall)
      → Before now cs
      → Descending cs
      → within_window
          (window_ms config)
          now
          (scores_of now (rate_limit_key reference) (sets_after config cs))
        ≡ within_window (window_ms config) now (calls_of reference cs)
  unfolding calls_of
  scores_of-sets_after reference now [] before sorted =
      ap (within_window (window_ms config) now) (empty_key reference now)
  scores_of-sets_after reference now (c ∷ cs) (here, before) (earlier, sorted) =
      elim (Bool-cases (c.reference === reference)) [
        | inr other ↦
            rw (counted_members c cs reference now, other)
              (scores_of-sets_after reference now cs before sorted)
        | inl same ↦ elim (Bool-cases (leb (c.at + window_ms config) now)) [
          | inl expired ↦
              rw (counted_members c cs reference now, same, expired)
                (nothing_kept now
                  ∙ sym (
                      within_window-expired (window_ms config) c.at now
                        (c.at ∷ calls_of reference cs)
                        (omega arith, calls_of-Before reference c.at cs earlier) (ground arith)))
          | inr live ↦
              rw (counted_members c cs reference now, same, live, eq-text-true same)
                (kept_members reference c.at now cs here
                  (scores_of-sets_after reference c.at cs earlier sorted))
        ]
      ]

  allowed_fewer :
      (reference : Str) (now : ℕ) (cs : List RateCall)
      → count_where (in_window (window_ms config) now) (allowed_of config reference cs)
        ≤ length (within_window (window_ms config) now (calls_of reference cs))
  unfolding allowed_of calls_of within_window
  allowed_fewer reference now [] = omega arith
  allowed_fewer reference now (c ∷ cs) = ground (arith, allowed_fewer reference now cs)

  later_fewer :
      (w at now : ℕ) (ts : List ℕ)
      → at ≤ now
      → count_where (in_window w now) ts ≤ count_where (in_window w at) ts
  later_fewer w at now [] h = omega arith
  later_fewer w at now (t ∷ ts) h = ground (arith, later_fewer w at now ts h)

  -- A call within the budget: with it, the window has at most the budget of calls.
  within_budget-count :
      (reference : Str) (at : ℕ) (cs : List RateCall)
      → Before at cs
      → Descending cs
      → within_budget config at at reference (sets_after config cs) ≡ true
      → suc (length (within_window (window_ms config) at (calls_of reference cs)))
        ≤ config.rate_limit_max
  unfolding within_budget members slide
  within_budget-count reference at cs before sorted allowed =
      let counted = scores_of-sets_after reference at cs before sorted in
      rw⁻¹ counted (ground arith)

  -- In whatever order references call, as long as no call is before an earlier one, and at whatever
  -- time from the last call on one looks back (the clocks of the issuer and of Redis agree): of the
  -- calls of a
  -- reference in the last window, at most RATE_LIMIT_MAX were within its budget.
  pub allowed_in_window :
      (reference : Str) (now : ℕ) (cs : List RateCall)
      → Before now cs
      → Descending cs
      → count_where (in_window (window_ms config) now) (allowed_of config reference cs)
        ≤ config.rate_limit_max
  unfolding allowed_of
  allowed_in_window reference now [] before sorted = omega arith
  allowed_in_window reference now (c ∷ cs) (here, before) (earlier, sorted) =
      let rest = allowed_in_window reference now cs before sorted in
      elim (Bool-cases (c.reference === reference)) [
        | inr other ↦ rw other rest
        | inl same ↦
            elim (Bool-cases (within_budget config c.at c.at c.reference (sets_after config cs))) [
              | inr blocked ↦ rw (same, blocked) rest
              | inl allowed ↦
                  let budget = within_budget-count reference c.at cs earlier sorted (
                    subst (λ r. within_budget config c.at c.at r (sets_after config cs) ≡ true)
                      (eq-text-true same) allowed) in
                  rw (same, allowed)
                    (ground (
                      arith,
                      budget,
                      later_fewer (window_ms config) c.at now (allowed_of config reference cs) here,
                      allowed_fewer reference c.at cs,
                    ))
            ]
      ]
