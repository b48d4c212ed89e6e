-- ===== src/Harness/Client/Payments.antt =====
-- The protocol of a request.
use credentials_issuer.Prelude.{
  ◌≡◌, ◌≢◌, ◌⊎◌, false, refl, subst, true, Option, none, some, List, ◌∷◌, Str, arith, inl, inr,
  Bool-cases, ◌==◌, ==_iff,
}
use credentials_issuer.Prelude.Json.{Json}
use credentials_issuer.Harness.Outcome.{
  HarnessError, Outcome, returned, threw, issuer_request_error, Outcome-cases, ◌>>=◌,
}
use credentials_issuer.Harness.Payment.{Headers, parse_payment_requirement, has_keys}
use credentials_issuer.Harness.Client.{
  IssuerClient, RequestInit, Response, Action, paid, Call, outgoing, answered, settled,
  after_paying, on_first_answer, pay_and_retry, request, read_json_or_null, is_ok, retry_402,
  PaymentFlow, direct, error_code,
}

abbrev pub requirement_of : Response → Json
requirement_of response = parse_payment_requirement (read_json_or_null response)

-- What an answer that is no success is told as.
abbrev pub error_of : Response → HarnessError
error_of response =
    issuer_request_error (some response.status) (error_code (read_json_or_null response))

-- The phases of one request.
pub data Phase : Type 0 where
  asked paying retried : Phase

module _ (client : IssuerClient) (path : Str) (init : RequestInit) (done : List Action) where
  -- The steps that the protocol allows: ask; pay what a 402 requires, if it requires anything; ask
  -- again with what the payment gave.
  pub data Reaches : List Action → Phase → Type 0 where
    asks : Reaches (outgoing client path init client.payment.initial_headers ∷ done) asked
    pays :
        {t : List Action} (response : Response)
        → Reaches t asked
        → client.network t ≡ some response
        → response.status ≡ 402
        → has_keys (requirement_of response) ≡ true
        → Reaches (paid (requirement_of response) ∷ t) paying
    retries :
        {t : List Action} (requirement : Json) (headers : Headers)
        → Reaches (paid requirement ∷ t) paying
        → client.payment.pay requirement ≡ returned headers
        → Reaches (outgoing client path init headers ∷ paid requirement ∷ t) retried

  -- What a request ends with, in each phase: no answer; the answer, if it is a success; the error
  -- that another answer stands for, unless it has to be paid for; the error of a provider that does
  -- not pay. What was paid for is asked for again, and then a 402 is an error.
  pub data Ends : List Action → Outcome Response → PaymentFlow → Type 0 where
    lost :
        {t : List Action}
        → Reaches t asked
        → client.network t ≡ none
        → Ends t (threw (issuer_request_error none none)) direct
    given :
        {t : List Action} (response : Response)
        → Reaches t asked
        → client.network t ≡ some response
        → is_ok response ≡ true
        → Ends t (returned response) direct
    refused :
        {t : List Action} (response : Response)
        → Reaches t asked
        → client.network t ≡ some response
        → is_ok response ≡ false
        → (response.status ≢ 402) ⊎ (has_keys (requirement_of response) ≡ false)
        → Ends t (threw (error_of response)) direct
    unpaid :
        {t : List Action} (requirement : Json) (e : HarnessError)
        → Reaches (paid requirement ∷ t) paying
        → client.payment.pay requirement ≡ threw e
        → Ends (paid requirement ∷ t) (threw e) retry_402
    lost_again :
        {t : List Action}
        → Reaches t retried
        → client.network t ≡ none
        → Ends t (threw (issuer_request_error none none)) retry_402
    given_again :
        {t : List Action} (response : Response)
        → Reaches t retried
        → client.network t ≡ some response
        → is_ok response ≡ true
        → Ends t (returned response) retry_402
    still_demanded :
        {t : List Action} (response : Response)
        → Reaches t retried
        → client.network t ≡ some response
        → response.status ≡ 402
        → Ends t (threw (issuer_request_error (some 402) none)) retry_402
    refused_again :
        {t : List Action} (response : Response)
        → Reaches t retried
        → client.network t ≡ some response
        → is_ok response ≡ false
        → response.status ≢ 402
        → Ends t (threw (error_of response)) retry_402

  abbrev pub IsRun : Call Response → Type 0
  IsRun call = Ends call.done call.outcome call.flow

  pub Ends-Reaches :
      (t : List Action) (outcome : Outcome Response) (flow : PaymentFlow)
      → Ends t outcome flow
      → (phase : Phase) × Reaches t phase
  Ends-Reaches t _ _ (Ends.lost reached answer) = (asked, reached)
  Ends-Reaches t _ _ (Ends.given response reached answer good) = (asked, reached)
  Ends-Reaches t _ _ (Ends.refused response reached answer bad free) = (asked, reached)
  Ends-Reaches _ _ _ (Ends.unpaid requirement e reached fails) = (paying, reached)
  Ends-Reaches t _ _ (Ends.lost_again reached answer) = (retried, reached)
  Ends-Reaches t _ _ (Ends.given_again response reached answer good) = (retried, reached)
  Ends-Reaches t _ _ (Ends.still_demanded response reached answer again) = (retried, reached)
  Ends-Reaches t _ _ (Ends.refused_again response reached answer bad other) = (retried, reached)

module _ (client : IssuerClient) (path : Str) (init : RequestInit) (done : List Action) where
  -- The last answer.
  after_retry-Ends :
      (t : List Action) (o : Option Response)
      → Reaches client path init done t retried
      → client.network t ≡ o
      → Ends client path init done t (answered o >>= after_paying) retry_402
  unfolding answered after_paying settled
  after_retry-Ends t none reached answer = Ends.lost_again reached answer
  after_retry-Ends t (some response) reached answer = elim (Bool-cases (response.status == 402)) [
    | inl again ↦
        rw again
          (Ends.still_demanded response reached answer ((==_iff response.status 402).0 again))
    | inr other ↦ elim (Bool-cases (is_ok response)) [
      | inl good ↦ rw (other, good) (Ends.given_again response reached answer good)
      | inr bad ↦
          rw (other, bad)
            (Ends.refused_again response reached answer bad (λ same. ground (arith, other, same)))
    ]
  ]

  pay_and_retry-Ends :
      (t : List Action) (response : Response)
      → Reaches client path init done t asked
      → client.network t ≡ some response
      → response.status ≡ 402
      → has_keys (requirement_of response) ≡ true
      → IsRun client path init done (pay_and_retry client path init (requirement_of response) t)
  unfolding pay_and_retry
  pay_and_retry-Ends t response reached answer demanded required =
      let q = requirement_of response in
      let owed = Reaches.pays response reached answer demanded required in
      elim (Outcome-cases (client.payment.pay q)) [
        | inr (e, fails) ↦ rw (pay_and_retry, fails) (Ends.unpaid q e owed fails)
        | inl (headers, settles) ↦
            let again = outgoing client path init headers ∷ paid q ∷ t in
            rw (pay_and_retry, settles)
              (after_retry-Ends again (client.network again)
                (Reaches.retries q headers owed settles) refl)
      ]

  on_first_answer-Ends :
      (t : List Action) (o : Option Response)
      → Reaches client path init done t asked
      → client.network t ≡ o
      → IsRun client path init done (on_first_answer client path init t (answered o))
  unfolding on_first_answer answered settled
  on_first_answer-Ends t none reached answer = Ends.lost reached answer
  on_first_answer-Ends t (some response) reached answer =
      elim (Bool-cases (response.status == 402)) [
        | inr other ↦ elim (Bool-cases (is_ok response)) [
          | inl good ↦ rw (other, good) (Ends.given response reached answer good)
          | inr bad ↦
              rw (other, bad)
                (Ends.refused response reached answer bad
                  (inl (λ same. ground (arith, other, same))))
        ]
        | inl demanded ↦ elim (Bool-cases (has_keys (requirement_of response))) [
          | inr nothing ↦
              let status : response.status ≡ 402 = (==_iff response.status 402).0 demanded in
              rw (demanded, nothing)
                (subst
                  (λ n.
                    Ends client path init done t
                      (threw
                        (issuer_request_error (some n) (error_code (read_json_or_null response))))
                      direct)
                  status
                  (Ends.refused response reached answer (rw (is_ok, status) (ground arith))
                    (inr nothing)))
          | inl required ↦
              rw (demanded, required)
                (pay_and_retry-Ends t response reached answer
                  ((==_iff response.status 402).0 demanded) required)
        ]
      ]

  pub request-IsRun : IsRun client path init done (request client path init done)
  unfolding request
  request-IsRun =
      let first = outgoing client path init client.payment.initial_headers ∷ done in
      on_first_answer-Ends first (client.network first) Reaches.asks refl
