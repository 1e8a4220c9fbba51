-- ===== src/Windows/Perform/Retries.antt =====
-- How often `perform` of src/Windows/curl_easy.cpp sends a request, and which responses it accepts.
use azure_dcap_client.Prelude.{
  ℕ, zero, suc, ◌+◌, ◌*◌, ◌<◌, ◌≤◌, ◌≡◌, ◌≢◌, refl, arith, true, false, Bool, Option, none, some,
  Outcome, ok, throw, fault, curl_error, curle_other,
}
use azure_dcap_client.Windows.Perform.{
  Exchange, WinHttp, maximum_retries, throw_on_code, checked, check_response, is_retried, round,
  Performed, after_round, perform_loop, perform,
}

-- The time slept at most, where each round but the last sleeps.
abbrev limit : ℕ → ℕ → ℕ → ℕ
limit zero retry_delay slept_ms = slept_ms
limit (suc zero) retry_delay slept_ms = slept_ms
limit (suc (suc fuel)) retry_delay slept_ms =
    limit (suc fuel) (retry_delay * 2) (slept_ms + retry_delay)

limit_le : (fuel retry_delay slept_ms : ℕ) → slept_ms ≤ limit fuel retry_delay slept_ms
limit_le zero d s = omega arith
limit_le (suc zero) d s = omega arith
limit_le (suc (suc fuel)) d s = omega (arith, limit_le (suc fuel) (d * 2) (s + d))

-- Behind the last retry no round goes on.
round_last :
    (w : WinHttp) (attempts : ℕ) (e : Exchange)
    → maximum_retries < attempts
    → round w attempts e ≢ ok true
unfolding round is_retried
round_last w attempts e h = ground arith

-- An end with at most 7 requests and within a time.
abbrev EndsWithin : ℕ → Option Performed → Type 0
EndsWithin bound r = (p : Performed) × (r ≡ some p) × (p.sends ≤ 7) × (p.slept_ms ≤ bound)

after_round-EndsWithin :
    (r : Outcome Bool) (sends slept_ms bound : ℕ) (rest : Option Performed)
    → (r ≡ ok true → EndsWithin bound rest)
    → sends ≤ 7
    → slept_ms ≤ bound
    → EndsWithin bound (after_round r sends slept_ms rest)
unfolding after_round
after_round-EndsWithin (ok true) sends slept_ms bound rest more h1 h2 = more refl
after_round-EndsWithin (ok false) sends slept_ms bound rest more h1 h2 = (_, refl, h1, h2)
after_round-EndsWithin (throw x) sends slept_ms bound rest more h1 h2 = (_, refl, h1, h2)
after_round-EndsWithin fault sends slept_ms bound rest more h1 h2 = (_, refl, h1, h2)

perform_loop-EndsWithin :
    (w : WinHttp) (fuel attempts d s : ℕ)
    → suc fuel + attempts ≡ 7
    → EndsWithin (limit (suc fuel) d s) (perform_loop w (suc fuel) attempts d s)
unfolding perform_loop
perform_loop-EndsWithin w zero attempts d s h =
    after_round-EndsWithin _ (attempts + 1) s s _
      (λ again. absurd (round_last w attempts (w.exchange attempts) (omega arith) again))
      (omega arith) (omega arith)
perform_loop-EndsWithin w (suc fuel) attempts d s h =
    after_round-EndsWithin _ (attempts + 1) s (limit (suc (suc fuel)) d s) _
      (λ again. perform_loop-EndsWithin w fuel (attempts + 1) (d * 2) (s + d) (omega arith))
      (omega arith) (limit_le (suc (suc fuel)) d s)

-- Whatever the network does, the loop ends: after at most 7 requests, with at most 1260 milliseconds
-- of sleep between them.
pub perform_ends :
    (w : WinHttp) → (p : Performed) × (perform w ≡ some p) × (p.sends ≤ 7) × (p.slept_ms ≤ 1260)
unfolding perform
perform_ends w = perform_loop-EndsWithin w 6 0 20 0 refl

-- A response whose receipt times out.
abbrev pub timed_out : WinHttp → Exchange
timed_out w = record {
  send = none;
  receive = some w.error_winhttp_timeout;
  query = none;
  status = 0;
}

round-timed_out :
    (w : WinHttp) (attempts : ℕ)
    → attempts ≤ maximum_retries
    → round w attempts (timed_out w) ≡ ok true
unfolding round checked is_retried
round-timed_out w attempts h = ground arith

round-timed_out_last :
    (w : WinHttp) (attempts : ℕ)
    → maximum_retries < attempts
    → w.error_winhttp_timeout ≢ 0
    → w.error_winhttp_timeout ≢ w.error_not_enough_memory
    → round w attempts (timed_out w) ≡ throw (curl_error (curle_other w.error_winhttp_timeout))
unfolding round checked is_retried throw_on_code
round-timed_out_last w attempts h ne1 ne2 = ground arith

perform_loop-timed_out :
    (w : WinHttp) (fuel attempts d s : ℕ)
    → ((n : ℕ) → w.exchange n ≡ timed_out w)
    → suc fuel + attempts ≡ 7
    → w.error_winhttp_timeout ≢ 0
    → w.error_winhttp_timeout ≢ w.error_not_enough_memory
    → perform_loop w (suc fuel) attempts d s
      ≡ some (record {
        result = throw (curl_error (curle_other w.error_winhttp_timeout));
        sends = 7;
        slept_ms = limit (suc fuel) d s;
      })
unfolding perform_loop after_round
perform_loop-timed_out w zero attempts d s all h ne1 ne2 =
    let six : attempts ≡ 6 = omega arith in
    rw (all attempts, round-timed_out_last w attempts (omega arith) ne1 ne2, six) refl
perform_loop-timed_out w (suc fuel) attempts d s all h ne1 ne2 =
    rw (all attempts, round-timed_out w attempts (omega arith))
      (perform_loop-timed_out w fuel (attempts + 1) (d * 2) (s + d) all (omega arith) ne1 ne2)

-- If each response times out, then the request is sent 7 times, so that it is repeated once more
-- than the 5 times of `maximum_retries`, with 1260 milliseconds of sleep; then the time-out is
-- thrown. The code of the time-out is neither 0 nor that of a lack of memory.
pub perform-timed_out :
    (w : WinHttp)
    → ((n : ℕ) → w.exchange n ≡ timed_out w)
    → w.error_winhttp_timeout ≢ 0
    → w.error_winhttp_timeout ≢ w.error_not_enough_memory
    → perform w
      ≡ some (record {
        result = throw (curl_error (curle_other w.error_winhttp_timeout));
        sends = maximum_retries + 2;
        slept_ms = 1260;
      })
unfolding perform
perform-timed_out w all ne1 ne2 = perform_loop-timed_out w 6 0 20 0 all refl ne1 ne2

-- A response that is received whole.
abbrev pub responded : ℕ → Exchange
responded code = record { send = none; receive = none; query = none; status = code }

round-responded :
    (w : WinHttp) (code : ℕ)
    → w.http_status_server_error < code
    → round w 0 (responded code) ≡ ok false
unfolding round checked check_response
round-responded w code h = ground arith

-- A response with a status code above `HTTP_STATUS_SERVER_ERROR`, such as one that says that the
-- service is not available, is a success at once.
pub perform_accepts_server_errors :
    (w : WinHttp) (code : ℕ)
    → w.http_status_server_error < code
    → w.exchange 0 ≡ responded code
    → perform w ≡ some (record { result = ok tt; sends = 1; slept_ms = 0 })
unfolding perform perform_loop after_round
perform_accepts_server_errors w code h e = rw (e, round-responded w code h) refl
