-- ===== src/Logging/Filter.antt =====
-- Which messages src/logging.cpp prints.
use azure_dcap_client.Prelude.{
  ◌≡◌, refl, arith, true, false, List, [], ◌∷◌, none, some, Bytes, leb, if◌then◌else◌,
}
use azure_dcap_client.Host.{Host}
use azure_dcap_client.Settings.{env_azdcap_debug_log, get_env_variable_no_log, not_retrieved}
use azure_dcap_client.Logging.{
  LogLevel, sgx_ql_log_error, sgx_ql_log_info, sgx_ql_log_none, level_value,
  convert_string_to_level, log_level_string, Line, printed, printed_error, Logger,
  logging_enabled_message, init_debug_log, print_message, log_message, is_log_none,
}

-- The variables at the start of the program.
abbrev pub initial : Logger
initial = record {
  has_callback = false;
  debug_log_level = sgx_ql_log_none;
  debug_log_initialized = false;
  lines = [];
}

-- Messages, one after the other.
abbrev pub log_messages : Host → List (LogLevel × Bytes) → Logger → Logger
log_messages h [] s = s
log_messages h ((level, message) ∷ rest) s = log_messages h rest (log_message h level message s)

-- The lines for the messages whose level is at most a given one, in front of others, the last first.
abbrev pub lines_of : LogLevel → List (LogLevel × Bytes) → List Line → List Line
lines_of limit [] lines = lines
lines_of limit ((level, message) ∷ rest) lines = lines_of limit rest (
    if leb (level_value level) (level_value limit)
    then printed (log_level_string level) message ∷ lines
    else lines)

-- The variables behind the initialisation.
abbrev pub ready : LogLevel → List Line → Logger
ready limit lines = record {
  has_callback = false;
  debug_log_level = limit;
  debug_log_initialized = true;
  lines = lines;
}

convert_string_to_level-ne-none :
    (value : Bytes) (limit : LogLevel)
    → convert_string_to_level value ≡ some limit
    → is_log_none limit ≡ false
unfolding convert_string_to_level
convert_string_to_level-ne-none value limit e = ground arith

log_message-ready :
    (h : Host) (level limit : LogLevel) (message : Bytes) (lines : List Line)
    → is_log_none limit ≡ false
    → log_message h level message (ready limit lines)
      ≡ ready limit (lines_of limit ((level, message) ∷ []) lines)
unfolding log_message init_debug_log print_message
log_message-ready h level limit message lines ne = ground arith

log_messages-ready :
    (h : Host) (limit : LogLevel) (messages : List (LogLevel × Bytes)) (lines : List Line)
    → is_log_none limit ≡ false
    → log_messages h messages (ready limit lines) ≡ ready limit (lines_of limit messages lines)
log_messages-ready h limit [] lines ne = refl
log_messages-ready h limit ((level, message) ∷ rest) lines ne =
    rw (log_message-ready h level limit message lines ne)
      (log_messages-ready h limit rest (lines_of limit ((level, message) ∷ []) lines) ne)

-- The line of the initialisation.
abbrev pub banner : Line
banner = printed (log_level_string sgx_ql_log_info) logging_enabled_message

log_message-first :
    (h : Host) (value : Bytes) (level limit : LogLevel) (message : Bytes)
    → get_env_variable_no_log h env_azdcap_debug_log ≡ (value, none)
    → convert_string_to_level value ≡ some limit
    → log_message h level message initial ≡ log_message h level message (ready limit (banner ∷ []))
unfolding log_message init_debug_log
log_message-first h value level limit message e l = ground arith

-- Without a callback, if the environment holds the name of a level, then from the first message on
-- exactly the messages of that level and of the more severe ones are printed, in their order, behind
-- one line that says that logging is on.
pub log_messages_enabled :
    (h : Host) (value : Bytes) (limit level : LogLevel) (message : Bytes)
    (rest : List (LogLevel × Bytes))
    → get_env_variable_no_log h env_azdcap_debug_log ≡ (value, none)
    → convert_string_to_level value ≡ some limit
    → log_messages h ((level, message) ∷ rest) initial
      ≡ ready limit (lines_of limit ((level, message) ∷ rest) (banner ∷ []))
log_messages_enabled h value limit level message rest e l =
    rw (log_message-first h value level limit message e l) (
      log_messages-ready h limit ((level, message) ∷ rest) (banner ∷ [])
        (convert_string_to_level-ne-none value limit l))

-- The line for a variable that is not set.
abbrev pub not_set : Line
not_set = printed_error (log_level_string sgx_ql_log_error) not_retrieved

log_message-silent :
    (h : Host) (level : LogLevel) (message : Bytes)
    → log_message h level message (ready sgx_ql_log_none (not_set ∷ []))
      ≡ ready sgx_ql_log_none (not_set ∷ [])
unfolding log_message init_debug_log print_message
log_message-silent h level message = refl

log_messages-silent :
    (h : Host) (messages : List (LogLevel × Bytes))
    → log_messages h messages (ready sgx_ql_log_none (not_set ∷ []))
      ≡ ready sgx_ql_log_none (not_set ∷ [])
log_messages-silent h [] = refl
log_messages-silent h ((level, message) ∷ rest) =
    rw (log_message-silent h level message) (log_messages-silent h rest)

log_message-first_silent :
    (h : Host) (level : LogLevel) (message : Bytes)
    → h.getenv env_azdcap_debug_log ≡ none
    → log_message h level message initial ≡ ready sgx_ql_log_none (not_set ∷ [])
unfolding log_message init_debug_log print_message
log_message-first_silent h level message e = ground arith

-- Without a callback, if no level is set in the environment, then no message is ever printed; the
-- first one only leads to one line which says that the variable could not be read.
pub log_messages_disabled :
    (h : Host) (level : LogLevel) (message : Bytes) (rest : List (LogLevel × Bytes))
    → h.getenv env_azdcap_debug_log ≡ none
    → log_messages h ((level, message) ∷ rest) initial ≡ ready sgx_ql_log_none (not_set ∷ [])
log_messages_disabled h level message rest e =
    rw (log_message-first_silent h level message e) (log_messages-silent h rest)
