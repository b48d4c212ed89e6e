-- ===== src/Harness/Client/Once.antt =====
-- That a request pays at most once.
use credentials_issuer.Prelude.{ℕ, ◌≡◌, ◌≤◌, ◌+◌, true, false, Bool, List, Str, arith, count_where}
use credentials_issuer.Harness.Client.{
  IssuerClient, RequestInit, Action, sent, paid, outgoing, request,
}
use credentials_issuer.Harness.Client.Payments.{
  Phase, asked, paying, retried, Reaches, Ends-Reaches, request-IsRun,
}

abbrev pub is_paid : Action → Bool
is_paid (paid requirement) = true
is_paid (sent url headers body) = false

abbrev pub is_sent : Action → Bool
is_sent (paid requirement) = false
is_sent (sent url headers body) = true

abbrev payments_in : Phase → ℕ
payments_in asked = 0
payments_in _ = 1

abbrev sends_in : Phase → ℕ
sends_in retried = 2
sends_in _ = 1

phase-few : (phase : Phase) → (payments_in phase ≤ 1) × (sends_in phase ≤ 2)
phase-few asked = (omega arith, omega arith)
phase-few paying = (omega arith, omega arith)
phase-few retried = (omega arith, omega arith)

module _ (client : IssuerClient) (path : Str) (init : RequestInit) (done : List Action) where
  Reaches-counts :
      (t : List Action) (phase : Phase)
      → Reaches client path init done t phase
      → (count_where is_paid t ≡ payments_in phase + count_where is_paid done)
        × (count_where is_sent t ≡ sends_in phase + count_where is_sent done)
  unfolding outgoing
  Reaches-counts t asked Reaches.asks = (omega arith, omega arith)
  Reaches-counts _ paying (Reaches.pays response before answer demanded required) =
      let (p, s) = Reaches-counts _ asked before in (omega (arith, p), omega (arith, s))
  Reaches-counts _ retried (Reaches.retries requirement headers before settles) =
      let (p, s) = Reaches-counts _ paying before in (omega (arith, p), omega (arith, s))

  -- Whatever the network answers and the provider does, one request pays at most once and is sent at
  -- most twice.
  pub request-pays_once :
      (count_where is_paid (request client path init done).done ≤ 1 + count_where is_paid done)
      × (count_where is_sent (request client path init done).done ≤ 2 + count_where is_sent done)
  request-pays_once =
      let call = request client path init done in
      let (phase, reached) =
        Ends-Reaches client path init done call.done call.outcome call.flow
          (request-IsRun client path init done) in
      let (p, s) = Reaches-counts call.done phase reached in
      let (few, twice) = phase-few phase in (omega (arith, p, few), omega (arith, s, twice))
