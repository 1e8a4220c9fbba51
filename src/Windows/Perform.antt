-- ===== src/Windows/Perform.antt =====
-- `perform` of src/Windows/curl_easy.cpp with `get_response_code` and `throw_on_error`, over WinHTTP.
pub mod Retries
use azure_dcap_client.Prelude.{
  ℕ, zero, suc, ◌+◌, ◌*◌, Bool, true, false, ◌&&◌, ◌||◌, Option, none, some, leb, ◌==◌,
  if◌then◌else◌, Outcome, ok, throw, fault, ⊤, bad_alloc, curl_error, curle_other,
}

-- What the calls of WinHTTP give in a round of the loop: the error code of each that fails, and the
-- status code that is read from the response (0 where its query fails).
pub record Exchange : Type 0 where
  pub send : Option ℕ
  pub receive : Option ℕ
  pub query : Option ℕ
  pub status : ℕ

-- The rounds by their number, and the constants of the Windows headers.
pub record WinHttp : Type 0 where
  pub exchange : ℕ → Exchange
  pub error_not_enough_memory : ℕ
  pub error_winhttp_timeout : ℕ
  pub error_winhttp_resend_request : ℕ
  pub winhttp_error_base : ℕ
  pub http_status_bad_request : ℕ
  pub http_status_server_error : ℕ

abbrev pub maximum_retries : ℕ
maximum_retries = 5

abbrev pub initial_retry_delay_ms : ℕ
initial_retry_delay_ms = 20

-- `curl_easy::throw_on_error`
unfoldable pub throw_on_code : WinHttp → ℕ → Outcome ⊤
throw_on_code w code =
    if code == 0
    then ok tt
    else if code == w.error_not_enough_memory
    then throw bad_alloc
    else throw (curl_error (curle_other code))

-- A call that fails with a code, or does not.
unfoldable pub checked : WinHttp → Option ℕ → Outcome ⊤
unfolding throw_on_code
checked w none = ok tt
checked w (some code) = throw_on_code w code

-- The part of a round behind the response.
unfoldable pub check_response : WinHttp → Exchange → Outcome ⊤
unfolding checked
check_response w e = elim (checked w e.query) [
  | throw x ↦ throw x
  | fault ↦ fault
  | ok _ ↦
      if leb w.http_status_bad_request e.status && leb e.status w.http_status_server_error
      then throw_on_code w w.winhttp_error_base
      else ok tt
]

-- Whether an error of the response is one that is retried.
unfoldable pub is_retried : WinHttp → ℕ → ℕ → Bool
is_retried w attempts last_error =
    (last_error == w.error_winhttp_timeout || last_error == w.error_winhttp_resend_request)
    && leb attempts maximum_retries

-- A round: whether the loop goes on.
unfoldable pub round : WinHttp → ℕ → Exchange → Outcome Bool
unfolding checked check_response
round w attempts e =
    let last : Outcome Bool = elim (check_response w e) [
      | ok _ ↦ ok false
      | throw x ↦ throw x
      | fault ↦ fault
    ] in
    elim (checked w e.send) [
      | throw x ↦ throw x
      | fault ↦ fault
      | ok _ ↦ elim e.receive [
        | none ↦ last
        | some last_error ↦
            if is_retried w attempts last_error
            then ok true
            else elim (throw_on_code w last_error) [
              | ok _ ↦ last
              | throw x ↦ throw x
              | fault ↦ fault
            ]
      ]
    ]

-- The result of the loop: how it ends, how many requests were sent, and how long it slept.
pub record Performed : Type 0 where
  pub result : Outcome ⊤
  pub sends : ℕ
  pub slept_ms : ℕ

-- How the loop goes on behind a round: it ends, or `rest` is what is left of it.
unfoldable pub after_round : Outcome Bool → ℕ → ℕ → Option Performed → Option Performed
after_round (ok true) sends slept_ms rest = rest
after_round (ok false) sends slept_ms rest =
    some (record { result = ok tt; sends = sends; slept_ms = slept_ms })
after_round (throw x) sends slept_ms rest =
    some (record { result = throw x; sends = sends; slept_ms = slept_ms })
after_round fault sends slept_ms rest =
    some (record { result = fault; sends = sends; slept_ms = slept_ms })

-- The loop on fuel; a round is started for each attempt.
unfoldable pub perform_loop : WinHttp → ℕ → ℕ → ℕ → ℕ → Option Performed
unfolding after_round
perform_loop w zero attempts retry_delay slept_ms = none
perform_loop w (suc fuel) attempts retry_delay slept_ms =
    after_round (round w attempts (w.exchange attempts)) (attempts + 1) slept_ms
      (perform_loop w fuel (attempts + 1) (retry_delay * 2) (slept_ms + retry_delay))

-- `curl_easy::perform`, with the fuel that the loop needs at most.
unfoldable pub perform : WinHttp → Option Performed
unfolding perform_loop
perform w = perform_loop w (maximum_retries + 2) 0 initial_retry_delay_ms 0
