-- ===== src/Examples/Startup.antt =====
-- A start with direct access to the drives, and the button pressed behind a failed round.
use smartmonitor.Common.{◌≡◌, ◌&&◌, true, false, [], ◌∷◌, codes, if◌then◌else◌}
use smartmonitor.CommandLine.{sccssflly_parsed_all_cmd_lne_args}
use smartmonitor.ConfigFiles.{success}
use smartmonitor.Startup.{Gui, end_direct, StartInput, returned, on_init}
use smartmonitor.Startup.Clicks.{
  IsSound, opened, count_calls, clicked, round_failed, on_gui_event, on_gui_events, gui-IsSound,
}
use smartmonitor.Startup.OneSource.{is_connect, from_drives, from_service, start_source}

abbrev direct_start : StartInput
direct_start = record {
  parsed = sccssflly_parsed_all_cmd_lne_args;
  has_logger = true;
  init = returned success;
  conf_file = [];
  settings = returned (codes "no file");
}

start_source_example :
    let g = (on_init false 5000 direct_start (opened (5 ∷ 194 ∷ []))).0 in
    (g.is_running ≡ from_drives direct_start (5 ∷ 194 ∷ []))
    × ((count_calls is_connect g.gui_calls ≡ (if from_service direct_start then 1 else 0))
        × ((from_drives direct_start (5 ∷ 194 ∷ []) && from_service direct_start) ≡ false))
start_source_example = start_source false 5000 direct_start (5 ∷ 194 ∷ [])

abbrev behind_clicks : Gui
behind_clicks =
    on_gui_events 5000 (clicked true ∷ round_failed ∷ clicked false ∷ [])
      (on_init false 5000 direct_start (opened (5 ∷ []))).0

gui-IsSound_example :
    IsSound behind_clicks
    × (behind_clicks.is_running ≡ true
        → ((on_gui_event 5000 round_failed behind_clicks).is_running ≡ false)
          × ((on_gui_event 5000 round_failed behind_clicks).direct_label ≡ end_direct))
gui-IsSound_example =
    gui-IsSound false 5000 direct_start (5 ∷ []) (clicked true ∷ round_failed ∷ clicked false ∷ [])
