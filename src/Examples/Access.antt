-- ===== src/Examples/Access.antt =====
-- A drive with three attributes, and a machine with three block devices.
use smartmonitor.Common.{
  ℕ, ◌≡◌, false, List, [], ◌∷◌, none, some, Bytes, codes, length, ◌==◌, if◌then◌else◌, arith,
  replicate,
}
use smartmonitor.UnitGuess.{UnitSlot, init_slot}
use smartmonitor.Access.{
  RetCode, success, access_denied, no_single_smart_device, ParsedAttr, AttrVal, AttrIds, Metrics,
  read_smart_attrs, read_smart_values_for_all_drives,
}
use smartmonitor.Access.Each.{read_each, outcome}
use smartmonitor.Access.Cursor.{read_smart_attrs-read_each}
use smartmonitor.Access.Drives.{tabbed, read_names, Decides, read_drives_outcome}

abbrev attr_ids : AttrIds
attr_ids = record {
  power_on_time = 2;
  gib_erased = 10;
  total_data_written = 11;
  total_data_read = 12;
}

abbrev metrics : Metrics
metrics = record { uptime_ms = 5000; num_written_b = none; num_read_b = none }

abbrev attr : ℕ → ParsedAttr
attr n = record { id = n; raw = 7; threshold = 10; current_value = 100 }

abbrev val : AttrVal
val = record {
  successfully_read = false;
  raw_value = 0;
  retrieval_time = 0;
  nrmlzd_thresh = 0;
  nrmlzd_curr = 0;
}

abbrev three : List (ParsedAttr × Metrics)
three = (attr 1, metrics) ∷ (attr 2, metrics) ∷ (attr 3, metrics) ∷ []

read_smart_attrs-read_each_example :
    (v : List AttrVal) × (t : List UnitSlot) × (read_each
        (2 ∷ 3 ∷ [])
        attr_ids
        three
        (replicate 5 val, replicate 5 init_slot)
      ≡ some (v, t))
    × (outcome (
          read_smart_attrs attr_ids three (record {
            cursor = (2 ∷ 3 ∷ 0 ∷ []);
            values = replicate 5 val;
            slots = replicate 5 init_slot;
          }))
        ≡ some (v, t))
read_smart_attrs-read_each_example =
    read_smart_attrs-read_each attr_ids three (2 ∷ 3 ∷ []) [] (replicate 5 val)
      (replicate 5 init_slot) (ground arith) (ground arith) (ground arith)

abbrev read_log : List Bytes → Bytes → List Bytes × RetCode
read_log w name = (name ∷ w, if length w == 0 then success else access_denied)

read_drives_outcome_example :
    let r = read_smart_values_for_all_drives (List Bytes) read_log (codes "sda\tsda1\tsdb\t") [] in
    let (v, cs) =
      read_names (List Bytes) read_log (codes "sda" ∷ codes "sda1" ∷ codes "sdb" ∷ []) [] in
    (r.0 ≡ v) × Decides cs no_single_smart_device r.1
unfolding tabbed
read_drives_outcome_example =
    read_drives_outcome (List Bytes) read_log (codes "sda" ∷ codes "sda1" ∷ codes "sdb" ∷ []) []
      (ground arith)
