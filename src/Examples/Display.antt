-- ===== src/Examples/Display.antt =====
-- Units, prefixes and the overall rating.
use smartmonitor.Common.{
  ℕ, ◌/◌, ◌%◌, ◌≡◌, refl, true, false, inr, List, [], ◌∷◌, some, arith, ltb, if◌then◌else◌, codes,
}
use smartmonitor.Formatter.{FormatOps}
use smartmonitor.Formatter.Prefixes.{PrefixLaws}
use smartmonitor.Display.{Shown}
use smartmonitor.ValueTable.{
  AttrView, CarrierView, overall_unknown, at_least_1_warn, UiCall, update_smart_values_ui,
}
use smartmonitor.ValueTable.Update.{any_warns, overall_iff}

-- one prefix only
abbrev kilo : FormatOps
kilo = record {
  prefix_symbol = λ r f. if ltb r 1000 then (b' ', (0, r)) else (b'k', (r % 1000, r / 1000));
  deg_c_from_curr_min_max = λ n. (0, (0, n));
  get_temp_in_deg_c = λ n. n;
  get_curr_temp = λ n. n;
  upper_hex = λ n. [];
}

kilo-PrefixLaws : PrefixLaws kilo (λ s. 1000)
kilo-PrefixLaws = record {
  split = λ r f h. ground arith;
  smaller = λ r f h. ground arith;
  rest = λ r f h. ground arith;
}

abbrev shown : Shown
shown = record {
  real_circa = 40;
  unit_text = codes "h";
  unit_accuracy = [];
  human_readable = codes "40h";
}

abbrev view : AttrView
view = record {
  view_id = 9;
  successfully_read = true;
  consistent = true;
  retrieval_time = 5000;
  raw_text = codes "40";
  nrmlzd_curr = 90;
  nrmlzd_thresh_val = 10;
  shown = shown;
}

abbrev carriers : List (CarrierView ℕ)
carriers = record { nvme = false; rate = λ id raw. raw; views = view ∷ [] } ∷ []

overall_iff_example :
    (calls : List (UiCall ℕ)) × (update_smart_values_ui ℕ 0 3
        (λ r. ltb r 50)
        true
        overall_unknown
        carriers
      ≡ some (
        calls,
        if any_warns ℕ 0 3 (λ r. ltb r 50) carriers then at_least_1_warn else overall_unknown,
      ))
overall_iff_example =
    overall_iff ℕ 0 3 (λ r. ltb r 50) true overall_unknown carriers ((inr (refl, refl), tt), tt)
