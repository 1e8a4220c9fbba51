-- ===== src/Tests/WindowsSession.antt =====
-- Runs of the Windows client's responses and of its event log.
use azure_dcap_client.Prelude.{
  ℕ, ◌≡◌, refl, arith, true, [], ◌∷◌, none, some, ok, Bytes, codes, inr, if◌then◌else◌, ◌+◌, lookup,
  insert, bytes_eq,
}
use azure_dcap_client.Logging.{sgx_ql_log_error}
use azure_dcap_client.Windows.EventLog.{EventApi, emit_event}
use azure_dcap_client.Windows.EventLog.Source.{emit_event-missing}
use azure_dcap_client.Windows.Session.{
  SessionApi, Session, Arrival, HeaderQuery, get_body, get_header, to_lower,
}
use azure_dcap_client.Windows.Session.Response.{get_body-all_bytes, get_header-get_header}

abbrev api : SessionApi
api = record {
  win_http = record {
    exchange = λ n. record { send = none; receive = none; query = none; status = 200 };
    error_not_enough_memory = 8;
    error_winhttp_timeout = 12002;
    error_winhttp_resend_request = 12032;
    winhttp_error_base = 12000;
    http_status_bad_request = 400;
    http_status_server_error = 500;
  };
  win_http_open = none;
  win_http_crack_url =
      λ url. (none, record { host_name = url; port = 443; url_path = codes "/"; extra_info = [] });
  win_http_connect = λ host port. none;
  win_http_open_request = λ path. none;
  win_http_set_redirect_policy = none;
  win_http_set_secure_protocols = none;
  multi_byte_to_wide_char = λ s. inr s;
  wide_char_to_multi_byte = λ s. inr s;
  error_insufficient_buffer = 122;
}

abbrev fresh : Session
fresh = record {
  url_to_retrieve = codes "/";
  host_name = codes "host";
  port = 443;
  body = [];
  headers = [];
  request_header_text = [];
  request_body_data = [];
}

abbrev piece : Bytes → Arrival
piece bytes = record {
  query_failed = none;
  size_available = 8;
  read_failed = none;
  bytes_read = bytes;
}

get_body-all_bytes_example :
    let self' = record fresh { body = codes "abcd" } in
    (get_body api (piece (codes "ab") ∷ piece (codes "cd") ∷ []) fresh ≡ (ok (codes "abcd"), self'))
    × (get_body api (piece (codes "x") ∷ []) self' ≡ (ok (codes "abcd"), self'))
get_body-all_bytes_example =
    get_body-all_bytes api (piece (codes "ab") ∷ piece (codes "cd") ∷ []) (piece (codes "x") ∷ [])
      fresh refl (refl, omega arith, refl, (refl, omega arith, refl, tt)) refl

-- The response has every header, with its own name as the value, and later none.
abbrev answers : Bytes → HeaderQuery
answers name = record { size_failed = some 122; text_failed = none; text = name }

abbrev nothing : Bytes → HeaderQuery
nothing name = record { size_failed = some 12150; text_failed = none; text = [] }

abbrev with_header : Session
with_header = (get_header api answers (codes "TCBm") fresh).1

get_header-get_header_example :
    get_header api nothing (codes "tcbM") with_header ≡ (ok (some (codes "tcbm")), with_header)
unfolding get_header to_lower lookup insert bytes_eq
get_header-get_header_example =
    get_header-get_header api answers nothing (codes "TCBm") (codes "tcbM") (codes "tcbm") fresh
      with_header refl refl

-- A registry without the key; the events that were reported are counted.
abbrev no_key : EventApi
no_key = record {
  Os = ℕ;
  reg_open_key = λ n key. 2;
  reg_create_key = λ n key. (0, n);
  reg_set_value = λ n name value. (0, n);
  reg_close_key = λ key. if key then 0 else 6;
  reg_delete_key = λ n key. (0, n);
  get_module_file_name = (1, codes "a");
  last_error = 0;
  register_event_source = λ n name. true;
  report_event = λ n type id message. (true, n + 1);
  msg_error_1 = 1;
  msg_warning_1 = 2;
  msg_info_1 = 3;
}

emit_event-missing_example : emit_event no_key sgx_ql_log_error (codes "failed") 0 ≡ 0
emit_event-missing_example =
    emit_event-missing no_key sgx_ql_log_error (codes "failed") 0 (omega arith) (omega arith)
      (omega arith)
