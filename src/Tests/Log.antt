-- ===== src/Tests/Log.antt =====
-- Runs of the logging functions.
use azure_dcap_client.Prelude.{◌≡◌, refl, [], ◌∷◌, some, codes}
use azure_dcap_client.Host.{Host}
use azure_dcap_client.Settings.{get_env_variable_no_log}
use azure_dcap_client.Logging.{
  sgx_ql_log_error, sgx_ql_log_info, sgx_ql_log_none, sgx_ql_log_warning, log_level_string, printed,
  convert_string_to_level,
}
use azure_dcap_client.Logging.Filter.{
  initial, log_messages, ready, banner, not_set, log_messages_enabled, log_messages_disabled,
}
use azure_dcap_client.Tests.Setup.{server}

-- A machine on which warnings are logged.
abbrev warned : Host
warned = record server { getenv = λ name. some (codes "WARNING") }

log_messages_enabled_example :
    log_messages warned ((sgx_ql_log_info, codes "i") ∷ (sgx_ql_log_error, codes "e") ∷ []) initial
    ≡ ready sgx_ql_log_warning
        (printed (log_level_string sgx_ql_log_error) (codes "e") ∷ banner ∷ [])
unfolding get_env_variable_no_log convert_string_to_level
log_messages_enabled_example =
    log_messages_enabled warned (codes "WARNING") sgx_ql_log_warning sgx_ql_log_info (codes "i")
      ((sgx_ql_log_error, codes "e") ∷ []) refl refl

log_messages_disabled_example :
    log_messages server ((sgx_ql_log_error, codes "e") ∷ (sgx_ql_log_error, codes "f") ∷ []) initial
    ≡ ready sgx_ql_log_none (not_set ∷ [])
log_messages_disabled_example =
    log_messages_disabled server sgx_ql_log_error (codes "e") ((sgx_ql_log_error, codes "f") ∷ [])
      refl
