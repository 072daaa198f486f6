-- ===== src/TimeFormat.antt =====
-- src/UserInterface/UserInterface.cpp: `UserInterface::FmtViaOSS`, a time as text.
pub mod ReadBack
use smartmonitor.Common.{
  ℕ, ◌+◌, ◌-◌, ◌*◌, ◌/◌, ◌%◌, [], ◌∷◌, ◌++◌, ◌==◌, if◌then◌else◌, Bytes, codes,
}
use smartmonitor.Common.Decimal.{decimal}

-- TU_Bln361095timeSecsPerDay, TU_Bln361095timeSecsPerHour
abbrev pub secs_per_day : ℕ
secs_per_day = 86400

abbrev pub secs_per_hour : ℕ
secs_per_hour = 3600

abbrev pub number_of_days : ℕ → ℕ
number_of_days ms = ms / 1000 / secs_per_day

-- timeOfDayNumberOfHoursPart
abbrev pub hours_part : ℕ → ℕ
hours_part ms = (ms / 1000 - number_of_days ms * secs_per_day) / secs_per_hour

-- timeInMilliSecsMinusPrintedTime behind the days and the hours
unfoldable pub minus_days : ℕ → ℕ
minus_days ms =
    if number_of_days ms == 0 then ms else ms - number_of_days ms * (secs_per_day * 1000)

unfoldable pub minus_hours : ℕ → ℕ
unfolding minus_days
minus_hours ms =
    if hours_part ms == 0
    then minus_days ms
    else minus_days ms - hours_part ms * secs_per_hour * 1000

-- `oss << n << unit`, if there is something to print
unfoldable pub part : ℕ → Bytes → Bytes
part n unit = if n == 0 then [] else decimal n ++ unit

unfoldable pub fmt_via_oss : ℕ → Bytes
unfolding part minus_hours
fmt_via_oss ms =
    if ms == 0
    then codes "unknown"
    else part (number_of_days ms) (codes "d")
      ++ (part (hours_part ms) (codes "h")
          ++ (part (minus_hours ms / 60000) (codes "min")
              ++ (part (ms / 1000 % 60) (codes "s") ++ part (ms % 1000) (codes "ms"))))
