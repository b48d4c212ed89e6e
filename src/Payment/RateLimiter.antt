-- ===== src/Payment/RateLimiter.antt =====
-- payment/rate-limiter.service.ts. Each member's name holds a fresh `randomUUID`, so every call adds
-- a member, and a set is modelled by the scores of its members. `now` is the issuer's clock and
-- `redis_now` that of Redis, by which a key expires; both count milliseconds.
pub mod Window
use credentials_issuer.Prelude.{
  ℕ, ◌+◌, ◌*◌, Bool, true, false, List, [], ◌∷◌, Str, code_units, ◌++◌, length, leb, ◌===◌,
  keep_where, not, if◌then◌else◌,
}
use credentials_issuer.Prelude.Result.{ok}
use credentials_issuer.Effect.{Action}
use credentials_issuer.Database.{SortedSet, Stores}
use credentials_issuer.Config.{IssuerConfig}

-- The members of a key that has not expired.
unfoldable pub scores_of : ℕ → Str → List SortedSet → List ℕ
scores_of redis_now key [] = []
scores_of redis_now key (z ∷ zs) =
    if z.key === key
    then (if leb z.expires_at redis_now then [] else z.scores)
    else scores_of redis_now key zs

store_set : SortedSet → List SortedSet → List SortedSet
store_set z [] = z ∷ []
store_set z (y ∷ ys) = if y.key === z.key then z ∷ ys else y ∷ store_set z ys

-- `zremrangebyscore(key, 0, now - windowMs)`: no score is below 0, and if `now < windowMs` the range
-- is empty.
pub within_window : ℕ → ℕ → List ℕ → List ℕ
within_window window_ms now scores = keep_where (λ score. not (leb (score + window_ms) now)) scores

-- `zadd` and `zcard`: the new members, and whether their number is within the budget.
unfoldable pub slide : ℕ → ℕ → List ℕ → List ℕ
unfolding within_window
slide window_ms now scores = now ∷ within_window window_ms now scores

abbrev pub rate_limit_key : Str → Str
rate_limit_key reference = code_units "ratelimit:" ++ reference

-- The members of the key after this call was added to them.
unfoldable pub members : IssuerConfig → ℕ → ℕ → Str → List SortedSet → List ℕ
members config now redis_now reference sets =
    slide (config.rate_limit_window_seconds * 1000) now
      (scores_of redis_now (rate_limit_key reference) sets)

-- `pexpire` keeps the key for one window more.
unfoldable pub count_request : IssuerConfig → ℕ → ℕ → Str → List SortedSet → List SortedSet
unfolding store_set
count_request config now redis_now reference sets =
    store_set
      (record {
        key = rate_limit_key reference;
        scores = members config now redis_now reference sets;
        expires_at = redis_now + config.rate_limit_window_seconds * 1000;
      })
      sets

unfoldable pub within_budget : IssuerConfig → ℕ → ℕ → Str → List SortedSet → Bool
within_budget config now redis_now reference sets =
    leb (length (members config now redis_now reference sets)) config.rate_limit_max

unfoldable pub allow : IssuerConfig → ℕ → ℕ → Str → Action Stores Bool
allow config now redis_now reference s = (
  ok (within_budget config now redis_now reference s.redis),
  record s { redis = count_request config now redis_now reference s.redis },
)
