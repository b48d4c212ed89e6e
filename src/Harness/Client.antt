-- ===== src/Harness/Client.antt =====
-- packages/buyer-harness/src/client.ts. The network is a parameter: what it answers to the latest of
-- the requests that were sent (`none` where `fetch` throws), which may depend on all that was done
-- before, the latest first. A call gives its outcome, what was done after it and the payment flow.
pub mod Once
pub mod Payments
use credentials_issuer.Prelude.{
  ℕ, Bool, true, false, not, ◌&&◌, Option, none, some, List, [], ◌∷◌, ◌++◌, Str, code_units, leb,
  ◌==◌, if◌then◌else◌,
}
use credentials_issuer.Prelude.Spaces.{drop_last_slashes}
use credentials_issuer.Prelude.Json.{Json, null, get}
use credentials_issuer.Harness.Outcome.{
  HarnessError, Outcome, returned, threw, issuer_request_error, ◌>>=◌,
}
use credentials_issuer.Harness.Payment.{
  Headers, PaymentProvider, parse_payment_requirement, has_keys,
}

pub record Response : Type 0 where
  pub status : ℕ
  pub body : Option Json

-- A request as it leaves, or a requirement that the provider was asked to settle.
pub data Action : Type 0 where
  sent : Str → Headers → Option Json → Action
  paid : Json → Action

abbrev pub Network : Type 0
Network = List Action → Option Response

pub data PaymentFlow : Type 0 where
  direct retry_402 : PaymentFlow

pub record IssuerClient : Type 0 where
  pub base_url : Str
  pub idempotency_key : Option Str
  pub payment : PaymentProvider
  pub network : Network

-- `init`: the headers of the request and its body.
pub record RequestInit : Type 0 where
  pub headers : Headers
  pub body : Option Json

pub record Call {ℓ} (A : Type ℓ) : Type ℓ where
  pub outcome : Outcome A
  pub done : List Action
  pub flow : PaymentFlow

unfoldable pub read_json : Response → Outcome Json
read_json response = elim response.body [
  | none ↦ threw (issuer_request_error none none)
  | some body ↦ returned body
]

unfoldable pub read_json_or_null : Response → Json
read_json_or_null response = elim response.body [ none ↦ null | some body ↦ body ]

-- The `code` of `errorFrom(body)`.
unfoldable pub error_code : Json → Option Json
error_code body = elim (get body (code_units "error")) [
  | none ↦ none
  | some inner ↦ get inner (code_units "code")
]

-- What `send` records of its request; an extra header stands behind the others.
pub outgoing : IssuerClient → Str → RequestInit → Headers → Action
outgoing client path init extra =
    sent (drop_last_slashes client.base_url ++ path) (init.headers ++ extra) init.body

pub answered : Option Response → Outcome Response
answered none = threw (issuer_request_error none none)
answered (some response) = returned response

-- `response.ok`.
pub is_ok : Response → Bool
is_ok response = leb 200 response.status && leb response.status 299

-- The end of `request`: an answer that is not a success is an error.
pub settled : Response → Outcome Response
unfolding is_ok
settled response =
    if is_ok response
    then returned response
    else threw
        (issuer_request_error (some response.status) (error_code (read_json_or_null response)))

-- The answer to the paid request.
pub after_paying : Response → Outcome Response
unfolding settled
after_paying response =
    if response.status == 402
    then threw (issuer_request_error (some 402) none)
    else settled response

-- The answer is a 402 with a requirement: pay, and send once more.
pub pay_and_retry : IssuerClient → Str → RequestInit → Json → List Action → Call Response
unfolding after_paying outgoing answered
pay_and_retry client path init requirement done =
    let asked = paid requirement ∷ done in
    elim (client.payment.pay requirement) [
      | threw e ↦ record { outcome = threw e; done = asked; flow = retry_402 }
      | returned headers ↦
          let again = outgoing client path init headers ∷ asked in
          record {
            outcome = answered (client.network again) >>= after_paying;
            done = again;
            flow = retry_402;
          }
    ]

-- The answer to the first request.
pub on_first_answer :
    IssuerClient → Str → RequestInit → List Action → Outcome Response → Call Response
unfolding pay_and_retry settled
on_first_answer client path init done (threw e) = record {
  outcome = threw e;
  done = done;
  flow = direct;
}
on_first_answer client path init done (returned response) =
    let body = read_json_or_null response in
    if not (response.status == 402)
    then record { outcome = settled response; done = done; flow = direct }
    else if has_keys (parse_payment_requirement body)
    then pay_and_retry client path init (parse_payment_requirement body) done
    else (record {
      outcome = threw (issuer_request_error (some 402) (error_code body));
      done = done;
      flow = direct;
    })

pub request : IssuerClient → Str → RequestInit → List Action → Call Response
unfolding on_first_answer outgoing answered
request client path init done =
    let first = outgoing client path init client.payment.initial_headers ∷ done in
    on_first_answer client path init first (answered (client.network first))

-- The JSON of an answer.
unfoldable pub reading : Call Response → Call Json
reading call = record { outcome = call.outcome >>= read_json; done = call.done; flow = call.flow }

unfoldable pub key_document : IssuerClient → List Action → Call Json
unfolding reading request
key_document client done =
    reading
      (request client (code_units "/v1/keys/current") (record { headers = []; body = none }) done)

-- An empty idempotency key sends no header.
unfoldable pub purchase_headers : IssuerClient → Headers
purchase_headers client =
    (code_units "content-type", code_units "application/json") ∷ (elim client.idempotency_key [
      | none ↦ []
      | some [] ↦ []
      | some (c ∷ s) ↦ (code_units "idempotency-key", c ∷ s) ∷ []
    ])

unfoldable pub post_bundle : IssuerClient → Json → List Action → Call Json
unfolding reading request
post_bundle client bundle_request done = reading (
    request client (code_units "/v1/bundles")
      (record { headers = purchase_headers client; body = some bundle_request }) done)
