-- ===== src/Windows/EventLog/Source.antt =====
-- The event source of src/Windows/dll/evtx_logging.cpp: what happens where it is installed, and where
-- it is not.
use azure_dcap_client.Prelude.{ℕ, ◌^◌, ◌<◌, ◌≡◌, refl, arith, false, Bytes, ap, ◌∙◌, lt→==}
use azure_dcap_client.Logging.{LogLevel}
use azure_dcap_client.Windows.EventLog.{
  EventApi, dcap_evtx_key, check_install_event_log_source, close_source, emit_event, report_level,
}

module _ (W : EventApi) where
  check_install_lem :
      (os : W.Os)
      → 0 < W.reg_open_key os dcap_evtx_key
      → W.reg_open_key os dcap_evtx_key < 2 ^ 31
      → check_install_event_log_source W os ≡ (W.reg_close_key false, os)
  unfolding check_install_event_log_source close_source
  check_install_lem os positive small = ground arith

  report_level-failed :
      (level : LogLevel) (message : Bytes) (status : ℕ) (os : W.Os)
      → 0 < status
      → report_level W level message (status, os) ≡ os
  unfolding report_level
  report_level-failed level message status os h = rw (lt→== status 0 h) refl

  -- On a machine where the key of the event source is missing, so that opening it fails with an
  -- error code of Windows, which is positive and below 2^31, the key is not created and no event of
  -- any level is ever reported: the message is dropped and nothing changes. Closing a handle that
  -- there is not fails.
  pub emit_event-missing :
      (level : LogLevel) (message : Bytes) (os : W.Os)
      → 0 < W.reg_open_key os dcap_evtx_key
      → W.reg_open_key os dcap_evtx_key < 2 ^ 31
      → 0 < W.reg_close_key false
      → emit_event W level message os ≡ os
  unfolding emit_event
  emit_event-missing level message os positive small closing =
      ap (report_level W level message) (check_install_lem os positive small)
      ∙ report_level-failed level message (W.reg_close_key false) os closing
