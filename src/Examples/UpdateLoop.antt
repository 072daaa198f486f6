-- ===== src/Examples/UpdateLoop.antt =====
-- A round for direct access with two data carriers.
use smartmonitor.Common.{
  Bool, if◌then◌else◌, ℕ, ◌≡◌, refl, true, false, [], ◌∷◌, ◌++◌, ◌==◌, List, length, some, arith,
}
use smartmonitor.Attr.{RawValue, is_consistent}
use smartmonitor.ConfigFiles.{access_success}
use smartmonitor.UpdateLoop.Lines.{QueryLines, upd8_smart_vals_drctly_thread_safe}
use smartmonitor.UpdateLoop.Kept.{kept_values, last_carrier_kept}

abbrev value_of : ℕ → ℕ → RawValue
value_of raw sum = record { parts = raw ∷ []; check_sum = sum }

abbrev sevens : List RawValue
sevens = value_of 7 7 ∷ value_of 7 7 ∷ value_of 7 7 ∷ []

-- Only the value of attribute 2 is consistent.
abbrev two_only : List RawValue
two_only = value_of 0 9 ∷ value_of 1 9 ∷ value_of 9 9 ∷ []

abbrev checked_ids : ℕ → ℕ × Bool
checked_ids id = if id == 2 then (9, true) else (id, false)

abbrev three_lines : QueryLines
three_lines = record {
  raw_values = 1 ∷ 2 ∷ 3 ∷ [];
  tick_counts = 0 ∷ 0 ∷ 0 ∷ [];
  readings = 0;
  has_time = false;
}

last_carrier_kept_example :
    (u : QueryLines) × ((upd8_smart_vals_drctly_thread_safe 8
          (λ n. n)
          access_success
          (sevens ∷ two_only ∷ [])
          (1 ∷ 2 ∷ [])
          three_lines
        ≡ some (u, access_success))
      × ((u.has_time ≡ true)
          × (((rest : List ℕ) × (u.raw_values ≡ kept_values checked_ids (1 ∷ 2 ∷ []) ++ rest))
              × ((length u.raw_values ≡ 3) × (length u.tick_counts ≡ 3)))))
unfolding is_consistent
last_carrier_kept_example =
    last_carrier_kept 8 (λ n. n) (sevens ∷ []) two_only checked_ids (1 ∷ 2 ∷ [])
      (((λ id. (7, true)), ((_, (refl, refl)), ((_, (refl, refl)), tt))), tt)
      ((_, (refl, refl)), ((_, (refl, refl)), tt)) three_lines (omega arith) (omega arith)
