-- ===== src/Windows/EventLog.antt =====
-- src/Windows/dll/evtx_logging.cpp over the registry and the event log of Windows, and the part of
-- `log_message` of src/logging.cpp that calls it.
pub mod Source
use azure_dcap_client.Prelude.{
  ℕ, ◌^◌, ◌-◌, Bool, true, false, not, List, [], ◌∷◌, ◌++◌, Option, none, some, Bytes, codes, ltb,
  leb, ◌==◌, if◌then◌else◌, length,
}
use azure_dcap_client.Logging.{
  LogLevel, sgx_ql_log_error, sgx_ql_log_warning, sgx_ql_log_info, sgx_ql_log_none,
}

-- `FAILED` of a `DWORD`: its highest bit.
abbrev pub failed : ℕ → Bool
failed code = leb (2 ^ 31) code

abbrev pub error_success : ℕ
error_success = 0

abbrev pub error_bad_length : ℕ
error_bad_length = 111

abbrev pub maxdword : ℕ
maxdword = 2 ^ 32 - 1

abbrev pub dcap_dll_name : Bytes
dcap_dll_name = codes "dcap_quoteprov"

abbrev pub dcap_evtx_key : Bytes
dcap_evtx_key = codes "SYSTEM\\CurrentControlSet\\Services\\EventLog\\Application\\dcap_quoteprov"

pub data EventType : Type 0 where
  eventlog_error_type eventlog_warning_type eventlog_information_type : EventType
  other_type : ℕ → EventType

-- The calls of Windows; `Os` is all that they change. A handle is whether one was given.
pub record EventApi : Type 1 where
  pub Os : Type 0
  pub reg_open_key : Os → Bytes → ℕ
  pub reg_create_key : Os → Bytes → ℕ × Os
  pub reg_set_value : Os → Bytes → Bytes → ℕ × Os
  pub reg_close_key : Bool → ℕ
  pub reg_delete_key : Os → Bytes → ℕ × Os
  -- The number that `GetModuleFileNameA` returns, and the text in its buffer.
  pub get_module_file_name : ℕ × Bytes
  pub last_error : ℕ
  pub register_event_source : Os → Bytes → Bool
  pub report_event : Os → EventType → ℕ → Bytes → Bool × Os
  -- The identifiers of the messages, from a generated header.
  pub msg_error_1 : ℕ
  pub msg_warning_1 : ℕ
  pub msg_info_1 : ℕ

-- `EVENTLOG_ERROR_TYPE | EVENTLOG_WARNING_TYPE | EVENTLOG_INFORMATION_TYPE` as four bytes.
abbrev pub types_supported : Bytes
types_supported = 7 ∷ 0 ∷ 0 ∷ 0 ∷ []

module _ (W : EventApi) where
  -- The returned number, and the name.
  unfoldable pub get_module_full_name : ℕ × Bytes
  get_module_full_name =
      let (copied, buffer) = W.get_module_file_name in
      if failed copied then (W.last_error, []) else (copied, buffer)

  -- The two values of a key that was created, with the error of the last call; `none` for a path that
  -- is too long.
  unfoldable pub set_values : Bytes → W.Os → Option ℕ × W.Os
  set_values full_path os =
      if leb (length full_path) maxdword
      then (let (first_error, os1) = W.reg_set_value os (codes "EventMessageFile") full_path in
          let (second_error, os2) = W.reg_set_value os1 (codes "TypesSupported") types_supported in
          if first_error == error_success
          then (some second_error, os2)
          else (some first_error, os1))
      else (none, os)

  -- The part of `check_install_event_log_source` where the key cannot be opened: the last error, or
  -- `none` for the early return, and whether there is a handle of the key.
  unfoldable pub create_source : W.Os → (Option ℕ × Bool) × W.Os
  unfolding get_module_full_name set_values
  create_source os =
      let (created, os1) = W.reg_create_key os dcap_evtx_key in
      let (result, full_path) = get_module_full_name in
      let (last_error, os2) = set_values full_path os1 in
      if failed created
      then ((some created, created == error_success), os1)
      else if failed result
      then ((some created, created == error_success), os1)
      else ((last_error, created == error_success), os2)

  -- The end of the function.
  unfoldable pub close_source : Option ℕ → Bool → ℕ
  close_source none key = error_bad_length
  close_source (some last_error) key =
      let status = W.reg_close_key key in if failed last_error then last_error else status

  unfoldable pub check_install_event_log_source : W.Os → ℕ × W.Os
  unfolding create_source close_source
  check_install_event_log_source os =
      let opened = W.reg_open_key os dcap_evtx_key in
      let ((last_error, key), os1) = create_source os in
      if failed opened
      then (close_source last_error key, os1)
      else (close_source (some opened) (opened == error_success), os)

  unfoldable pub uninstall_event_log_source : W.Os → ℕ × W.Os
  uninstall_event_log_source os = W.reg_delete_key os dcap_evtx_key

  unfoldable pub event_id_of : EventType → ℕ
  event_id_of eventlog_error_type = W.msg_error_1
  event_id_of eventlog_warning_type = W.msg_warning_1
  event_id_of eventlog_information_type = W.msg_info_1
  event_id_of (other_type t) = W.msg_info_1

  unfoldable pub log_event_log_message : Bytes → EventType → W.Os → Bool × W.Os
  unfolding event_id_of
  log_event_log_message a_msg a_type os =
      if W.register_event_source os dcap_dll_name
      then W.report_event os a_type (event_id_of a_type) a_msg
      else (false, os)

  -- The end of `log_message`, behind the call that looks for the event source.
  unfoldable pub report_level : LogLevel → Bytes → ℕ × W.Os → W.Os
  unfolding log_event_log_message
  report_level level message (status, os) =
      if status == error_success
      then elim level [
        | sgx_ql_log_info ↦ (log_event_log_message message eventlog_information_type os).1
        | sgx_ql_log_warning ↦ (log_event_log_message message eventlog_warning_type os).1
        | sgx_ql_log_error ↦ (log_event_log_message message eventlog_error_type os).1
        | sgx_ql_log_none ↦ os
      ]
      else os

  -- The part of `log_message` that is compiled on Windows only.
  unfoldable pub emit_event : LogLevel → Bytes → W.Os → W.Os
  unfolding check_install_event_log_source report_level
  emit_event level message os = report_level level message (check_install_event_log_source os)
