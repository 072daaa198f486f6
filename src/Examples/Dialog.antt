-- ===== src/Examples/Dialog.antt =====
-- Three data carriers with their buttons, and updates with a warning that is gone.
use smartmonitor.Common.{
  ℕ, ◌≡◌, refl, List, [], ◌∷◌, All, codes, true, false, ◌==◌, ==_refl, none, some, arith, Bool, ltb,
  inr, if◌then◌else◌,
}
use smartmonitor.DiskPanels.{panel_of, panel_to_set}
use smartmonitor.DiskPanels.Keys.{panels_lem}
use smartmonitor.ValueTable.{AttrView, CarrierView, overall_unknown, OverallRating, UiCall}
use smartmonitor.ValueTable.History.{run_updates}
use smartmonitor.Display.{Shown}
use smartmonitor.Dialog.{status_unknown_icon, warning_icon}
use smartmonitor.Dialog.Icon.{icon_after, some_warns, FitsIcon, warning_stays}

-- Connected to a server with the data carriers 7 and 8, then to one with 9.
panels_lem_example :
    All (λ d. (id : ℕ) × (panel_to_set ℕ (λ a b. a == b) 2 [] (9 ∷ []) d ≡ some id)) (9 ∷ [])
    × (panel_to_set ℕ (λ a b. a == b) 2 ((7, 2) ∷ (8, 3) ∷ []) (9 ∷ []) 9 ≡ none)
unfolding panel_of
panels_lem_example =
    panels_lem ℕ (λ a b. a == b) 2 ((7, 2) ∷ (8, 3) ∷ []) (9 ∷ []) 9 ==_refl (omega arith) refl

abbrev hours : Shown
hours = record {
  real_circa = 40;
  unit_text = codes "h";
  unit_accuracy = [];
  human_readable = codes "40h";
}

abbrev low_value : AttrView
low_value = record {
  view_id = 9;
  successfully_read = true;
  consistent = true;
  retrieval_time = 5000;
  raw_text = codes "40";
  nrmlzd_curr = 90;
  nrmlzd_thresh_val = 10;
  shown = hours;
}

-- A data carrier with a warning, which then is gone.
abbrev two_updates : List (Bool × List (CarrierView ℕ))
two_updates =
    (true, record { nvme = false; rate = λ id raw. raw; views = low_value ∷ [] } ∷ [])
    ∷ (true, [])
    ∷ []

warning_stays_example :
    (calls : List (UiCall ℕ)) × (r : OverallRating) × (run_updates ℕ 0 3
        (λ r. ltb r 50)
        overall_unknown
        two_updates
      ≡ some (calls, r))
    × (icon_after ℕ 0 3 (λ r. ltb r 50) status_unknown_icon calls ≡ (
        if some_warns ℕ 0 3 (λ r. ltb r 50) two_updates then warning_icon else status_unknown_icon))
unfolding FitsIcon
warning_stays_example =
    warning_stays ℕ 0 3 (λ r. ltb r 50) two_updates overall_unknown status_unknown_icon
      (((inr (refl, refl), tt), tt), (tt, tt)) tt
