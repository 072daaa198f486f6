-- ===== src/Startup/Clicks.antt =====
-- The button for direct access and the thread, from the start of the program on.
use smartmonitor.Common.{
  ℕ, ◌+◌, ◌≡◌, ◌∙◌, refl, Bool, true, false, List, [], ◌∷◌, arith, if◌then◌else◌, codes, Bytes,
}
use smartmonitor.CommandLine.{Parsed, called_help, sccssflly_parsed_all_cmd_lne_args}
use smartmonitor.ConfigFiles.{
  InitSmartRetCode, success, reading_config_file_failed, access_to_smart_denied,
  no_smart_capable_device_present, rethrown,
}
use smartmonitor.Startup.{
  GuiCall, show_dialog, start_updates_thread, close_socket, Gui, add_gui_call, end_direct, set_ui,
  drct_smart_accss_ui_ctrls, no_drct_smart_access_ui_ctrls, set_get_direct_smart_vals,
  start_direct_updates, start_async_drct_upd8_thread, end_update_ui_thread, on_drct_smart_accss,
  thread_ends, disable_drct_smart_accss, FileOutcome, returned, open_failed, StartInput, Started,
  exits, choose_source, failed_to_open, after_settings, after_init, after_command_line, on_init,
}

unfoldable pub is_start : GuiCall → Bool
is_start start_updates_thread = true
is_start _ = false

unfoldable pub is_end : GuiCall → Bool
is_end close_socket = true
is_end _ = false

unfoldable pub count_calls : (GuiCall → Bool) → List GuiCall → ℕ
count_calls test [] = 0
count_calls test (c ∷ calls) = if test c then count_calls test calls + 1 else count_calls test calls

-- The threads that were started are those that ended and the running one, the flag is set, and while a
-- thread runs the button is one for ending it.
unfoldable pub IsSound : Gui → Type 0
IsSound g =
    (count_calls is_start g.gui_calls
      ≡ count_calls is_end g.gui_calls + (if g.is_running then 1 else 0))
    × ((g.updates ≡ true) × (g.is_running ≡ true → g.direct_label ≡ end_direct))

-- The window as it is created.
abbrev pub opened : List ℕ → Gui
opened ids = record {
  ids = ids;
  updates = true;
  is_running = false;
  gets_directly = false;
  direct_label = codes "&direct S.M.A.R.T.";
  direct_enabled = true;
  tool_tip = [];
  gui_calls = [];
}

-- The button is pressed, where the last round of a running thread got its values or not; or a round of
-- the thread fails.
pub data GuiEvent : Type 0 where
  clicked : Bool → GuiEvent
  round_failed : GuiEvent

unfoldable pub on_gui_event : ℕ → GuiEvent → Gui → Gui
unfolding on_drct_smart_accss thread_ends
on_gui_event interval (clicked got_values) g = on_drct_smart_accss interval got_values g
on_gui_event interval round_failed g = if g.is_running then thread_ends false g else g

unfoldable pub on_gui_events : ℕ → List GuiEvent → Gui → Gui
unfolding on_gui_event
on_gui_events interval [] g = g
on_gui_events interval (e ∷ events) g = on_gui_events interval events (on_gui_event interval e g)

click-IsSound :
    (interval : ℕ) (got_values : Bool) (g : Gui)
    → IsSound g
    → IsSound (on_drct_smart_accss interval got_values g)
unfolding on_drct_smart_accss IsSound count_calls is_start is_end end_update_ui_thread thread_ends
    add_gui_call no_drct_smart_access_ui_ctrls start_async_drct_upd8_thread start_direct_updates
    set_ui set_get_direct_smart_vals drct_smart_accss_ui_ctrls
click-IsSound interval got_values g (counts, (flag, label)) =
    (ground arith, (ground arith, λ runs. ground arith))

failed-IsSound : (g : Gui) → IsSound g → IsSound (if g.is_running then thread_ends false g else g)
unfolding IsSound count_calls is_start is_end thread_ends add_gui_call
failed-IsSound g (counts, (flag, label)) = (ground arith, (ground arith, λ runs. ground arith))

on_gui_event-IsSound :
    (interval : ℕ) (e : GuiEvent) (g : Gui) → IsSound g → IsSound (on_gui_event interval e g)
unfolding on_gui_event
on_gui_event-IsSound interval (clicked got_values) g s = click-IsSound interval got_values g s
on_gui_event-IsSound interval round_failed g s = failed-IsSound g s

on_gui_events-IsSound :
    (interval : ℕ) (events : List GuiEvent) (g : Gui)
    → IsSound g
    → IsSound (on_gui_events interval events g)
unfolding on_gui_events
on_gui_events-IsSound interval [] g s = s
on_gui_events-IsSound interval (e ∷ events) g s =
    on_gui_events-IsSound interval events (on_gui_event interval e g)
      (on_gui_event-IsSound interval e g s)

opened-IsSound : (ids : List ℕ) → IsSound (add_gui_call show_dialog (opened ids))
unfolding IsSound add_gui_call count_calls is_start is_end
opened-IsSound ids = (refl, (refl, λ runs. ground arith))

failed_to_open-IsSound :
    (path : Bytes) (ids : List ℕ)
    → IsSound (failed_to_open path (add_gui_call show_dialog (opened ids))).0
unfolding failed_to_open IsSound add_gui_call count_calls is_start is_end
failed_to_open-IsSound path ids = (refl, (refl, λ runs. ground arith))

if-IsSound :
    (b : Bool) (x y : Gui × Started) → IsSound x.0 → IsSound y.0 → IsSound (if b then x else y).0
if-IsSound true x y s t = s
if-IsSound false x y s t = t

module _ (has_macro : Bool) (interval : ℕ) where
  after_settings-IsSound :
      (code : InitSmartRetCode) (conf_file : Bytes) (settings : FileOutcome Bytes) (ids : List ℕ)
      → IsSound
          (after_settings has_macro interval code conf_file settings
            (add_gui_call show_dialog (opened ids))).0
  unfolding after_settings failed_to_open add_gui_call choose_source disable_drct_smart_accss
      IsSound count_calls is_start is_end start_async_drct_upd8_thread start_direct_updates set_ui
      set_get_direct_smart_vals drct_smart_accss_ui_ctrls
  after_settings-IsSound code conf_file (open_failed path) ids =
      (refl, (refl, λ runs. ground arith))
  after_settings-IsSound code conf_file (returned error_msg) ids =
      (ground arith, (ground arith, λ runs. ground arith))

  after_init-IsSound :
      (i : StartInput) (init : FileOutcome InitSmartRetCode) (ids : List ℕ)
      → IsSound (after_init has_macro interval i init (add_gui_call show_dialog (opened ids))).0
  unfolding after_init
  after_init-IsSound i (open_failed path) ids = failed_to_open-IsSound path ids
  after_init-IsSound i (returned reading_config_file_failed) ids = opened-IsSound ids
  after_init-IsSound i (returned rethrown) ids = opened-IsSound ids
  after_init-IsSound i (returned success) ids =
      after_settings-IsSound success i.conf_file i.settings ids
  after_init-IsSound i (returned access_to_smart_denied) ids =
      after_settings-IsSound access_to_smart_denied i.conf_file i.settings ids
  after_init-IsSound i (returned no_smart_capable_device_present) ids =
      after_settings-IsSound no_smart_capable_device_present i.conf_file i.settings ids

  after_command_line-IsSound :
      (i : StartInput) (parsed : Parsed) (ids : List ℕ)
      → IsSound
          (after_command_line has_macro interval i parsed (add_gui_call show_dialog (opened ids))).0
  unfolding after_command_line
  after_command_line-IsSound i called_help ids = opened-IsSound ids
  after_command_line-IsSound i sccssflly_parsed_all_cmd_lne_args ids =
      let g = add_gui_call show_dialog (opened ids) in
      if-IsSound i.has_logger (after_init has_macro interval i i.init g) (g, exits)
        (after_init-IsSound i i.init ids) (opened-IsSound ids)

  -- A failed round ends the thread and leaves the label.
  AfterFailure : Gui → Type 0
  AfterFailure g =
      let h = on_gui_event interval round_failed g in
      (h.is_running ≡ false) × (h.direct_label ≡ g.direct_label)

  failed-AfterFailure : (g : Gui) → AfterFailure g
  unfolding AfterFailure on_gui_event thread_ends add_gui_call
  failed-AfterFailure g = (ground arith, ground arith)

  -- Whatever the start meets and however often the button for direct access is pressed and rounds of the
  -- thread fail, as long as no service is connected: at most one thread runs, each one started before
  -- has ended, the flag for updating is set again, and while the thread runs the button is labelled as
  -- the one that ends it. A round that fails then ends the thread and does not change the label, so that
  -- the button keeps it without a thread.
  pub gui-IsSound :
      (i : StartInput) (ids : List ℕ) (events : List GuiEvent)
      → let g = on_gui_events interval events (on_init has_macro interval i (opened ids)).0 in
        let h = on_gui_event interval round_failed g in
        IsSound g × (g.is_running ≡ true → (h.is_running ≡ false) × (h.direct_label ≡ end_direct))
  unfolding on_init AfterFailure IsSound
  gui-IsSound i ids events =
      let g = on_gui_events interval events (on_init has_macro interval i (opened ids)).0 in
      let s : IsSound g =
        on_gui_events-IsSound interval events (on_init has_macro interval i (opened ids)).0
          (after_command_line-IsSound i i.parsed ids) in
      let f = failed-AfterFailure g in (s, λ runs. (f.0, f.1 ∙ s.1.1 runs))
