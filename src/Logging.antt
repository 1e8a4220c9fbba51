-- ===== src/Logging.antt =====
-- src/logging.cpp on Linux, with `sgx_ql_set_logging_function` of src/dcap_provider.cpp: messages go
-- to a callback, or to the standard output where a level is set in the environment.
pub mod Filter
use azure_dcap_client.Prelude.{
  ℕ, Bool, true, false, ◌||◌, List, [], ◌∷◌, Option, none, some, Bytes, codes, bytes_eq, leb,
  is_empty, if◌then◌else◌, take,
}
use azure_dcap_client.Host.{Host}
use azure_dcap_client.Settings.{EnvError, get_env_variable_no_log, env_azdcap_debug_log}

-- `sgx_ql_log_level_t`
pub data LogLevel : Type 0 where
  sgx_ql_log_error sgx_ql_log_warning sgx_ql_log_info sgx_ql_log_none : LogLevel

-- The value of an enumerator.
abbrev pub level_value : LogLevel → ℕ
level_value sgx_ql_log_error = 0
level_value sgx_ql_log_warning = 1
level_value sgx_ql_log_info = 2
level_value sgx_ql_log_none = 3

unfoldable pub convert_string_to_level : Bytes → Option LogLevel
unfolding bytes_eq
convert_string_to_level level =
    if bytes_eq level (codes "ERROR") || bytes_eq level (codes "SGX_QL_LOG_ERROR")
    then some sgx_ql_log_error
    else if bytes_eq level (codes "WARNING") || bytes_eq level (codes "SGX_QL_LOG_WARNING")
    then some sgx_ql_log_warning
    else if bytes_eq level (codes "INFO") || bytes_eq level (codes "SGX_QL_LOG_INFO")
    then some sgx_ql_log_info
    else none

unfoldable pub log_level_string : LogLevel → Bytes
log_level_string sgx_ql_log_info = codes "INFO"
log_level_string sgx_ql_log_warning = codes "WARNING"
log_level_string sgx_ql_log_error = codes "ERROR"
log_level_string sgx_ql_log_none = codes "UNKNOWN"

-- A call of the callback, and a line on the standard output with its level.
pub data Line : Type 0 where
  called : LogLevel → Bytes → Line
  printed : Bytes → Bytes → Line
  printed_error : Bytes → EnvError → Line

-- The variables of the file, and what has been written, the last line first.
pub record Logger : Type 0 where
  pub has_callback : Bool
  pub debug_log_level : LogLevel
  pub debug_log_initialized : Bool
  pub lines : List Line

abbrev pub write_line : Line → Logger → Logger
write_line line s = record s { lines = line ∷ s.lines }

abbrev pub logging_enabled_message : Bytes
logging_enabled_message = codes "Debug Logging Enabled"

unfoldable pub enable_debug_logging : Bytes → Logger → Logger
unfolding convert_string_to_level log_level_string
enable_debug_logging level s = elim (convert_string_to_level level) [
  | none ↦ s
  | some sgx_level ↦
      let s' = record s { debug_log_level = sgx_level } in
      if s.has_callback
      then write_line (called sgx_ql_log_info logging_enabled_message) s'
      else write_line (printed (log_level_string sgx_ql_log_info) logging_enabled_message) s'
]

-- The part of `init_debug_log` for the setting.
unfoldable pub read_debug_level : Bytes × Option EnvError → Logger → Logger
unfolding enable_debug_logging
read_debug_level (value, some error) s =
    write_line (printed_error (log_level_string sgx_ql_log_error) error) s
read_debug_level (value, none) s = if is_empty value then s else enable_debug_logging value s

unfoldable pub init_debug_log : Host → Logger → Logger
unfolding read_debug_level get_env_variable_no_log
init_debug_log h s =
    let read = read_debug_level (get_env_variable_no_log h env_azdcap_debug_log) s in
    if s.debug_log_initialized then s else record read { debug_log_initialized = true }

abbrev pub is_log_none : LogLevel → Bool
is_log_none sgx_ql_log_none = true
is_log_none level = false

-- The part of `log_message` behind the initialisation.
unfoldable pub print_message : LogLevel → Bytes → Logger → Logger
unfolding log_level_string
print_message level message s =
    if is_log_none s.debug_log_level
    then s
    else if leb (level_value level) (level_value s.debug_log_level)
    then write_line (printed (log_level_string level) message) s
    else s

unfoldable pub log_message : Host → LogLevel → Bytes → Logger → Logger
unfolding init_debug_log print_message
log_message h level message s =
    if s.has_callback
    then write_line (called level message) s
    else print_message level message (init_debug_log h s)

-- `sgx_ql_set_logging_function`, with a null pointer or not.
unfoldable pub sgx_ql_set_logging_function : Bool → Logger → Logger
sgx_ql_set_logging_function is_set s = record s { has_callback = is_set }

-- `log` of a text that `vsnprintf` has made: what fits the buffer of 512 characters with its end.
unfoldable pub log : Host → LogLevel → Bytes → Logger → Logger
unfolding log_message
log h level formatted s = log_message h level (take 511 formatted) s
