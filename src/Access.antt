-- ===== src/Access.antt =====
-- The access to the drives: src/libATA_SMART/SMARTaccess.cpp and src/SMARTaccessBase.cpp. What
-- libatasmart and the operating system report is a parameter: a `Device` and its `Metrics`.
pub mod Each
pub mod Total
pub mod Cursor
pub mod Drives
use smartmonitor.Common.{
  ℕ, ◌+◌, Bool, true, false, ◌&&◌, List, [], ◌∷◌, ◌++◌, Option, none, some, ltb, ◌==◌,
  if◌then◌else◌, ◌>>=◌, Bytes, length, get_elem?, set,
}
use smartmonitor.UnitGuess.{UnitSlot, guess_unit}

-- `SMARTaccessBase::retCodes`
pub data RetCode : Type 0 where
  success access_denied no_single_smart_device got_smart_attribute_value unset get_bus_typ_faild :
      RetCode
  other_error : RetCode

-- `SkSmartAttributeParsedData`: what the callback reads of it
pub record ParsedAttr : Type 0 where
  pub id : ℕ
  pub raw : ℕ
  pub threshold : ℕ
  pub current_value : ℕ

-- An element of `m_SMARTvalues`
pub record AttrVal : Type 0 where
  pub successfully_read : Bool
  pub raw_value : ℕ
  pub retrieval_time : ℕ
  pub nrmlzd_thresh : ℕ
  pub nrmlzd_curr : ℕ

-- `enum ID` of the attributes whose unit is detected
pub record AttrIds : Type 0 where
  pub power_on_time : ℕ
  pub gib_erased : ℕ
  pub total_data_written : ℕ
  pub total_data_read : ℕ

-- `GetUptimeInNs` in milliseconds, and the bytes written and read since the start, where known
pub record Metrics : Type 0 where
  pub uptime_ms : ℕ
  pub num_written_b : Option ℕ
  pub num_read_b : Option ℕ

-- `guessUnit` when the metric is known
unfoldable pub guess_with : Option ℕ → List UnitSlot → ℕ → ℕ → Option (List UnitSlot)
guess_with none slots id raw = some slots
guess_with (some other) slots id raw = guess_unit slots id raw other

unfoldable pub possibly_auto_detect_unit :
    AttrIds → Metrics → ℕ → ℕ → List UnitSlot → Option (List UnitSlot)
possibly_auto_detect_unit k m id raw slots =
    if id == k.power_on_time
    then guess_unit slots id raw m.uptime_ms
    else if id == k.gib_erased
    then some slots
    else if id == k.total_data_written
    then guess_with m.num_written_b slots id raw
    else if id == k.total_data_read
    then guess_with m.num_read_b slots id raw
    else some slots

-- What the callback works on: the rest of the IDs to read from `currSMART_IDtoReadIdx` on, the
-- values and the unit slots by attribute ID.
pub record Helper : Type 0 where
  pub cursor : List ℕ
  pub values : List AttrVal
  pub slots : List UnitSlot

-- the `while` loop; `none` is a read beyond the array
unfoldable pub advance : ℕ → List ℕ → Option (List ℕ)
advance id [] = none
advance id (x ∷ xs) =
    let rest = advance id xs in
    if ltb x id then (if x == 0 then some (x ∷ xs) else rest) else some (x ∷ xs)

-- `m_SMARTvalues[id]` and its new content
unfoldable pub update_value : List AttrVal → ℕ → (AttrVal → AttrVal) → Option (List AttrVal)
update_value values id f = get_elem? values id >>= λ v. some (set values id (f v))

-- `cpySMARTattrThreadSafe` and the normalized values
unfoldable pub stored : Metrics → ParsedAttr → AttrVal → AttrVal
stored m a v = record {
  successfully_read = true;
  raw_value = a.raw;
  retrieval_time = m.uptime_ms;
  nrmlzd_thresh = a.threshold;
  nrmlzd_curr = a.current_value;
}

unfoldable pub unread : AttrVal → AttrVal
unread v = record v { successfully_read = false }

-- the two branches behind the loop: the values and the slots
unfoldable pub take_value :
    AttrIds
    → Metrics
    → ParsedAttr
    → Bool
    → List AttrVal
    → List UnitSlot
    → Option (List AttrVal × List UnitSlot)
take_value k m a true values slots = possibly_auto_detect_unit k m a.id a.raw slots >>= λ t.
    update_value values a.id (stored m a) >>= λ v. some (v, t)
take_value k m a false values slots = update_value values a.id unread >>= λ v. some (v, slots)

-- `IDsOfSMARTattrsToRd[currSMART_IDtoReadIdx] == SMARTattrID`
unfoldable pub head_is : ℕ → List ℕ → Option Bool
head_is id [] = none
head_is id (x ∷ xs) = some (x == id)

-- `getSMARTrawValueCallback`
unfoldable pub get_smart_raw_value_callback :
    AttrIds → Metrics → ParsedAttr → Helper → Option Helper
get_smart_raw_value_callback k m a h = advance a.id h.cursor >>= λ c. head_is a.id c >>= λ b.
    take_value k m a b h.values h.slots >>= λ r.
    some (record { cursor = c; values = r.0; slots = r.1 })

-- `readSMARTAttrs`: libatasmart calls the callback for each attribute, with the metrics of then.
unfoldable pub read_smart_attrs : AttrIds → List (ParsedAttr × Metrics) → Helper → Option Helper
read_smart_attrs k [] h = some h
read_smart_attrs k ((a, m) ∷ attrs) h =
    get_smart_raw_value_callback k m a h >>= λ h'. read_smart_attrs k attrs h'

-- What the calls for one device file report.
pub record Device : Type 0 where
  pub opens : Bool  -- sk_disk_open is not -1
  pub reads : Bool  -- sk_disk_smart_read_data is 0
  pub identifies : Bool  -- sk_disk_identify_is_available is 0 and true
  pub errno : ℕ  -- at the end of `readSMARTforDevice`
  pub attrs : List (ParsedAttr × Metrics)

-- the code before the `switch` on `errno`
unfoldable pub code_before : Device → RetCode
code_before d =
    if d.opens
    then (if d.reads then (if d.identifies then success else unset) else no_single_smart_device)
    else unset

-- `readSMARTforDevice`: the code, and the data carrier's values and slots
unfoldable pub read_smart_for_device : ℕ → AttrIds → Device → Helper → Option (RetCode × Helper)
read_smart_for_device eacces k d h =
    (if d.opens && (d.reads && d.identifies) then read_smart_attrs k d.attrs h else some h)
    >>= λ h'. some (if d.errno == eacces then access_denied else code_before d, h')

-- the `switch` on the code of one device
unfoldable pub overall : RetCode → RetCode → RetCode
overall before success = success
overall before access_denied = access_denied
overall before no_single_smart_device = before
overall before got_smart_attribute_value = before
overall before unset = before
overall before get_bus_typ_faild = before
overall before other_error = before

abbrev pub num_chars_for_data_carrier_files : ℕ
num_chars_for_data_carrier_files = 3

module _ (World : Type 0) (read_device : World → Bytes → World × RetCode) where
  -- what is done at a '\t' with the name in front of it
  unfoldable pub on_name : Bytes → World → RetCode → World × RetCode
  on_name name w code =
      let (v, c) = read_device w name in
      if length name == num_chars_for_data_carrier_files then (v, overall code c) else (w, code)

  -- the loop over the names; `name` is what lies behind the last '\t'
  unfoldable pub for_names : Bytes → Bytes → World → RetCode → World × RetCode
  for_names [] name w code = (w, code)
  for_names (c ∷ text) name w code =
      let r = on_name name w code in
      let next = for_names text [] r.0 r.1 in
      let more = for_names text (name ++ (c ∷ [])) w code in if c == b'\t' then next else more

  -- `ReadSMARTValuesForAllDrives`
  unfoldable pub read_smart_values_for_all_drives : Bytes → World → World × RetCode
  read_smart_values_for_all_drives names w = for_names names [] w no_single_smart_device
