-- ===== src/Startup/OneSource.antt =====
-- Which source of values the start chooses.
use smartmonitor.Common.{
  ℕ, ◌≡◌, refl, Bool, true, false, not, ◌&&◌, List, [], arith, if◌then◌else◌, Bytes,
}
use smartmonitor.Common.Texts.{same}
use smartmonitor.AttrDefs.{start_async_update_thread}
use smartmonitor.CommandLine.{Parsed, called_help, sccssflly_parsed_all_cmd_lne_args}
use smartmonitor.ConfigFiles.{
  InitSmartRetCode, success, reading_config_file_failed, access_to_smart_denied,
  no_smart_capable_device_present, rethrown,
}
use smartmonitor.Startup.{
  GuiCall, show_dialog, post_connect_event, Gui, add_gui_call, set_ui, drct_smart_accss_ui_ctrls,
  set_get_direct_smart_vals, start_direct_updates, start_async_drct_upd8_thread,
  disable_drct_smart_accss, FileOutcome, returned, open_failed, StartInput, Started, exits,
  is_success, choose_source, failed_to_open, after_settings, after_init, after_command_line,
  on_init,
}
use smartmonitor.Startup.Clicks.{opened, count_calls}

unfoldable pub is_connect : GuiCall → Bool
is_connect post_connect_event = true
is_connect _ = false

-- Described without the order of the code: both readings of files went well enough.
unfoldable pub is_read : FileOutcome InitSmartRetCode → Bool
is_read (open_failed path) = false
is_read (returned reading_config_file_failed) = false
is_read (returned rethrown) = false
is_read (returned success) = true
is_read (returned access_to_smart_denied) = true
is_read (returned no_smart_capable_device_present) = true

unfoldable pub are_settings_read : FileOutcome Bytes → Bool
are_settings_read (open_failed path) = false
are_settings_read (returned error_msg) = true

unfoldable pub is_parsed : Parsed → Bool
is_parsed called_help = false
is_parsed sccssflly_parsed_all_cmd_lne_args = true

unfoldable pub has_access : FileOutcome InitSmartRetCode → Bool
has_access (open_failed path) = false
has_access (returned code) = is_success code

-- The start comes to the choice.
unfoldable pub is_ready : StartInput → Bool
is_ready i =
    is_parsed i.parsed && (i.has_logger && (is_read i.init && are_settings_read i.settings))

-- The values come from a service if a file is named, else from the drives.
unfoldable pub from_service : StartInput → Bool
from_service i = is_ready i && not (same i.conf_file [])

unfoldable pub from_drives : StartInput → List ℕ → Bool
from_drives i ids =
    is_ready i && (same i.conf_file [] && (has_access i.init && start_async_update_thread ids))

-- the thread and the event for connecting, as two Booleans tell
HasSource : Gui → Bool → Bool → Type 0
HasSource g drives service =
    (g.is_running ≡ drives) × (count_calls is_connect g.gui_calls ≡ (if service then 1 else 0))

opened-HasSource : (ids : List ℕ) → HasSource (add_gui_call show_dialog (opened ids)) false false
unfolding HasSource add_gui_call count_calls is_connect
opened-HasSource ids = (refl, refl)

failed_to_open-HasSource :
    (path : Bytes) (ids : List ℕ)
    → HasSource (failed_to_open path (add_gui_call show_dialog (opened ids))).0 false false
unfolding failed_to_open HasSource add_gui_call count_calls is_connect
failed_to_open-HasSource path ids = (refl, refl)

if-HasSource :
    (b : Bool) (x y : Gui × Started) (drives service : Bool)
    → HasSource x.0 drives service
    → HasSource y.0 false false
    → HasSource (if b then x else y).0 (b && drives) (b && service)
if-HasSource true x y drives service s t = s
if-HasSource false x y drives service s t = t

module _ (has_macro : Bool) (interval : ℕ) where
  after_settings-HasSource :
      (code : InitSmartRetCode) (conf_file : Bytes) (settings : FileOutcome Bytes) (ids : List ℕ)
      → HasSource
          (after_settings has_macro interval code conf_file settings
            (add_gui_call show_dialog (opened ids))).0
          (are_settings_read settings
            && (same conf_file [] && (is_success code && start_async_update_thread ids)))
          (are_settings_read settings && not (same conf_file []))
  unfolding HasSource after_settings failed_to_open add_gui_call choose_source
      disable_drct_smart_accss count_calls is_connect start_async_drct_upd8_thread
      start_direct_updates set_ui set_get_direct_smart_vals drct_smart_accss_ui_ctrls
      are_settings_read
  after_settings-HasSource code conf_file (open_failed path) ids = (refl, refl)
  after_settings-HasSource code conf_file (returned error_msg) ids = (ground arith, ground arith)

  after_init-HasSource :
      (i : StartInput) (init : FileOutcome InitSmartRetCode) (ids : List ℕ)
      → HasSource
          (after_init has_macro interval i init (add_gui_call show_dialog (opened ids))).0
          (is_read init
            && (are_settings_read i.settings
                && (same i.conf_file [] && (has_access init && start_async_update_thread ids))))
          (is_read init && (are_settings_read i.settings && not (same i.conf_file [])))
  unfolding after_init is_read has_access is_success
  after_init-HasSource i (open_failed path) ids = failed_to_open-HasSource path ids
  after_init-HasSource i (returned reading_config_file_failed) ids = opened-HasSource ids
  after_init-HasSource i (returned rethrown) ids = opened-HasSource ids
  after_init-HasSource i (returned success) ids =
      after_settings-HasSource success i.conf_file i.settings ids
  after_init-HasSource i (returned access_to_smart_denied) ids =
      after_settings-HasSource access_to_smart_denied i.conf_file i.settings ids
  after_init-HasSource i (returned no_smart_capable_device_present) ids =
      after_settings-HasSource no_smart_capable_device_present i.conf_file i.settings ids

  after_command_line-HasSource :
      (i : StartInput) (parsed : Parsed) (ids : List ℕ)
      → HasSource
          (after_command_line has_macro interval i parsed (add_gui_call show_dialog (opened ids))).0
          (is_parsed parsed
            && (i.has_logger
                && (is_read i.init
                    && (are_settings_read i.settings
                        && (same i.conf_file []
                            && (has_access i.init && start_async_update_thread ids))))))
          (is_parsed parsed
            && (i.has_logger
                && (is_read i.init && (are_settings_read i.settings && not (same i.conf_file [])))))
  unfolding after_command_line is_parsed
  after_command_line-HasSource i called_help ids = opened-HasSource ids
  after_command_line-HasSource i sccssflly_parsed_all_cmd_lne_args ids =
      let g = add_gui_call show_dialog (opened ids) in
      if-HasSource i.has_logger (after_init has_macro interval i i.init g) (g, exits)
        (is_read i.init
          && (are_settings_read i.settings
              && (same i.conf_file [] && (has_access i.init && start_async_update_thread ids))))
        (is_read i.init && (are_settings_read i.settings && not (same i.conf_file [])))
        (after_init-HasSource i i.init ids) (opened-HasSource ids)

  -- The start runs the thread for direct access exactly if it gets past the command line, the log file and
  -- the configuration files, no file for a connection is named, the drives can be read and attributes
  -- are observed; it posts the event for connecting once exactly if it gets as far and a file is named,
  -- else never; so it never does both.
  pub start_source :
      (i : StartInput) (ids : List ℕ)
      → let g = (on_init has_macro interval i (opened ids)).0 in
        (g.is_running ≡ from_drives i ids)
        × ((count_calls is_connect g.gui_calls ≡ (if from_service i then 1 else 0))
            × ((from_drives i ids && from_service i) ≡ false))
  unfolding on_init HasSource from_drives from_service is_ready
  start_source i ids =
      let h = after_command_line-HasSource i i.parsed ids in
      (ground arith, (ground arith, ground arith))
