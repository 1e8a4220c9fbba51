-- ===== src/Tests/Windows.antt =====
-- Runs of the Windows code.
use azure_dcap_client.Prelude.{
  ◌≤◌, ◌≡◌, refl, arith, ◌∷◌, ◌++◌, none, some, ok, throw, curl_error, curle_other, Bytes, codes,
}
use azure_dcap_client.Windows.Escape.{escape, unescape}
use azure_dcap_client.Windows.Escape.RoundTrip.{unescape-escape, escape_refuses}
use azure_dcap_client.Windows.Perform.{Exchange, WinHttp, Performed, perform}
use azure_dcap_client.Windows.Perform.Retries.{
  perform_ends, perform-timed_out, responded, perform_accepts_server_errors,
}

unescape-escape_example :
    (t : Bytes) × (escape (codes "a %/") 0 ≡ some t) × (unescape t ≡ some (codes "a %/"))
unescape-escape_example = unescape-escape (codes "a %/") (omega arith) (omega arith)

escape_refuses_example : escape (codes "a" ++ 195 ∷ codes "b") 0 ≡ none
escape_refuses_example = escape_refuses (codes "a") (codes "b") 195 (omega arith) (omega arith)

-- A network in which each exchange is the same.
abbrev network : Exchange → WinHttp
network e = record {
  exchange = λ n. e;
  error_not_enough_memory = 8;
  error_winhttp_timeout = 12002;
  error_winhttp_resend_request = 12032;
  winhttp_error_base = 12000;
  http_status_bad_request = 400;
  http_status_server_error = 500;
}

abbrev silent : WinHttp
silent = network (record { send = none; receive = some 12002; query = none; status = 0 })

perform_ends_example :
    (p : Performed) × (perform silent ≡ some p) × (p.sends ≤ 7) × (p.slept_ms ≤ 1260)
perform_ends_example = perform_ends silent

perform-timed_out_example :
    perform silent
    ≡ some (record { result = throw (curl_error (curle_other 12002)); sends = 7; slept_ms = 1260 })
perform-timed_out_example = perform-timed_out silent (λ n. refl) (ground arith) (ground arith)

perform_accepts_server_errors_example :
    perform (network (responded 503)) ≡ some (record { result = ok tt; sends = 1; slept_ms = 0 })
perform_accepts_server_errors_example =
    perform_accepts_server_errors (network (responded 503)) 503 (omega arith) refl
