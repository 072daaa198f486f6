-- ===== src/UpdateLoop/Lines.antt =====
-- The round for direct access, `Upd8SMARTvalsDrctlyThreadSafe` in src/SMARTmonitorBase.cpp: the raw
-- values and the times of the attributes to observe. `size` is the size of a `long int` in bytes.
use smartmonitor.Common.{
  ℕ, ◌+◌, Bool, true, List, [], ◌∷◌, Option, some, ◌>>=◌, if◌then◌else◌, get_elem?,
}
use smartmonitor.Attr.{RawValue, is_consistent}
use smartmonitor.IdArray.{write}
use smartmonitor.ConfigFiles.{
  AccessCode, access_success, access_denied, no_single_smart_device, other_code,
}

-- `readings` counts the calls of `GetTickCount`.
pub record QueryLines : Type 0 where
  pub raw_values : List ℕ  -- m_arSMARTrawValue
  pub tick_counts : List ℕ  -- m_arTickCountOfLastQueryInMilliSeconds
  pub readings : ℕ
  pub has_time : Bool  -- m_timeOfLastSMARTvaluesUpdate is set

module _ (size : ℕ) (tick : ℕ → ℕ) where
  -- One attribute: its raw value is stored in the line, which is kept if it is consistent. `none` is an
  -- access beyond an array.
  unfoldable pub upd8_line : RawValue → ℕ → QueryLines → Option (QueryLines × ℕ)
  upd8_line v line q = is_consistent size v >>= λ r. write q.raw_values line r.0 >>= λ raws.
      if r.1
      then (write q.tick_counts line (tick q.readings) >>= λ ticks. some (
        record q { raw_values = raws; tick_counts = ticks; readings = q.readings + 1 },
        line + 1,
      ))
      else some (record q { raw_values = raws }, line)

  -- The loop over the attributes to observe, with `m_SMARTvalues`: an ID beyond this array is `none`.
  unfoldable pub upd8_lines : List RawValue → List ℕ → ℕ → QueryLines → Option QueryLines
  unfolding upd8_line
  upd8_lines values [] line q = some q
  upd8_lines values (id ∷ ids) line q =
      get_elem? values id >>= λ v. upd8_line v line q >>= λ r. upd8_lines values ids r.1 r.0

  -- the loop over the data carriers
  unfoldable pub upd8_carriers : List (List RawValue) → List ℕ → QueryLines → Option QueryLines
  unfolding upd8_lines
  upd8_carriers [] ids q = some q
  upd8_carriers (values ∷ carriers) ids q =
      upd8_lines values ids 0 q >>= λ r. upd8_carriers carriers ids r

  -- `Upd8SMARTvalsDrctlyThreadSafe` with the result of `ReadSMARTValuesForAllDrives`, which it returns
  unfoldable pub upd8_smart_vals_drctly_thread_safe :
      AccessCode → List (List RawValue) → List ℕ → QueryLines → Option (QueryLines × AccessCode)
  unfolding upd8_carriers
  upd8_smart_vals_drctly_thread_safe access_success carriers ids q =
      upd8_carriers carriers ids q >>= λ r. some (record r { has_time = true }, access_success)
  upd8_smart_vals_drctly_thread_safe access_denied carriers ids q = some (q, access_denied)
  upd8_smart_vals_drctly_thread_safe no_single_smart_device carriers ids q =
      some (q, no_single_smart_device)
  upd8_smart_vals_drctly_thread_safe other_code carriers ids q = some (q, other_code)
