-- ===== src/Examples/Connect.antt =====
-- The window for connecting, with both timers running.
use smartmonitor.Common.{ℕ, ◌≡◌, refl, true, false, [], ◌∷◌, ◌++◌, Option, none, Bytes, codes}
use smartmonitor.ConnectDialog.{ConnectWindow, cnnct_to_srv_and_get_smart_vals, entered, box_unless}
use smartmonitor.ConnectDialog.CountDown.{timeout_tick, attempt_tick, tick, ticks, count_down_lem}

abbrev no_number : Bytes → Option ℕ
no_number text = none

abbrev two_timers : ConnectWindow
two_timers = record {
  srv_addr_text = codes "host";
  port_no_text = [];
  timeout_text = [];
  cnnctn_attmpt_text = [];
  service_host_name = [];
  socket_port_number = 0;
  cnnct_time_out_in_sec = 30;
  srv_cnnctn_cnt_down_in_sec = 60;
  is_set = true;
  time_out_in_seconds = 2;
  cnnctn_timeout_timer = true;
  cnnctn_attmpt_timer = true;
  timeout_label = [];
  is_addr_marked = false;
  calls = [];
}

abbrev both_tick : ConnectWindow
both_tick = ticks no_number (timeout_tick ∷ attempt_tick ∷ []) two_timers

count_down_lem_example :
    (both_tick.time_out_in_seconds ≡ 0)
    × ((both_tick.calls ≡ [])
        × (◌≡◌ {A = ℕ} 0 0
            → ((tick no_number attempt_tick both_tick).calls
                ≡ (cnnct_to_srv_and_get_smart_vals ∷ [])
                  ++ box_unless
                      (entered no_number [] 0).0
                      (codes "error converting timeout character string to integer"))
              × (((tick no_number attempt_tick both_tick).cnnctn_attmpt_timer ≡ false)
                  × ((tick no_number attempt_tick both_tick).cnnctn_timeout_timer ≡ true))))
count_down_lem_example =
    count_down_lem no_number (timeout_tick ∷ attempt_tick ∷ []) two_timers 0 refl
