-- ===== src/CfgLoader.antt =====
-- The loader of configuration files: src/tinyxml2/ConfigLoader.cpp, with src/attributes/ModelAndFirmware.hpp
-- and `getDataCarrierAttrDefs` in src/SMARTmonitorBase.cpp. The XML library gives the elements with
-- their attributes; `none` is an attribute that is missing. `convert` is
-- `ConvertCharStringToTypename`, `strcmp_sign` the sign of `strcmp`. Names that overrun the
-- arrays of `ModelAndFirmware` are left out.
pub mod Definitions
pub mod Carriers
pub mod Numbers
use Prim.Native.Nat.{Ordering}
use smartmonitor.Common.{
  ℕ, zero, suc, ◌+◌, ◌-◌, ◌%◌, ◌^◌, Bool, true, false, ◌&&◌, not, List, [], ◌∷◌, ◌++◌, Option, none,
  some, ◌>>=◌, ltb, ◌==◌, if◌then◌else◌, Bytes, codes, length, get_elem?, set, replicate,
}
use smartmonitor.Common.Sets.{insert}
use smartmonitor.Common.Texts.{same}
use smartmonitor.AttrDefs.{SmartAttrDef, add, clear_smart_attr_defs}

-- An element of the file with the definitions: IntAttribute("ID", 0) and both texts.
pub record DefElement : Type 0 where
  pub id : ℕ
  pub name : Option Bytes
  pub critical : Option Bytes

-- `SMARTattrDefs` and `NVMeSMARTattrDefs`
pub record Tables : Type 0 where
  pub ata : List SmartAttrDef
  pub nvme : List SmartAttrDef

-- The array that is handed over.
pub data Target : Type 0 where
  ata_defs nvme_defs : Target

unfoldable pub add_to : Target → Tables → SmartAttrDef → Option Tables
add_to ata_defs t d = add t.ata d >>= λ a. some (record t { ata = a })
add_to nvme_defs t d = add t.nvme d >>= λ a. some (record t { nvme = a })

unfoldable pub is_critical : Option Bytes → Bool
is_critical none = false
is_critical (some text) = same text (codes "yes")

unfoldable pub name_or : Bytes → Option Bytes → Bytes
name_or before none = before
name_or before (some name) = name

-- The `do` loop of `readSMARTattrDefs`, with the name that its variable holds: the tables and the
-- number of warnings.
unfoldable pub read_def_elements :
    Target → List DefElement → Bytes → Tables → ℕ → Option (Tables × ℕ)
unfolding is_critical name_or
read_def_elements target [] before t warnings = some (t, warnings)
read_def_elements target (e ∷ es) before t warnings =
    let name = name_or before e.name in
    let d : SmartAttrDef = record {
      critical_attribute = is_critical e.critical;
      attribute_id = e.id;
      attribute_name = name;
    } in
    if e.id == 0
    then read_def_elements target es before t (warnings + 1)
    else if same name []
    then read_def_elements target es name t warnings
    else (add_to target t d >>= λ later. read_def_elements target es name later warnings)

-- `readSMARTattrDefs` with the elements from the first "SMART_attribute" on, or `none` if the file
-- cannot be opened: the result, the tables and the warnings. It always clears the table for ATA.
unfoldable pub read_smart_attr_defs :
    Target → Option (List DefElement) → Tables → Option (Bool × (Tables × ℕ))
unfolding read_def_elements
read_smart_attr_defs target none t = some (false, (t, 0))
read_smart_attr_defs target (some []) t = some (false, (t, 0))
read_smart_attr_defs target (some (e ∷ es)) t =
    read_def_elements target (e ∷ es) [] (record t { ata = clear_smart_attr_defs t.ata }) 0 >>= λ r.
    some (true, r)

-- What `GetSMARTattributesToObserve` fills: the set and the array.
pub record Observed : Type 0 where
  pub ids : List ℕ  -- m_IDsOfSMARTattrsToObserve
  pub array : List ℕ  -- m_SMARTattrIDsToObs
  pub next : ℕ  -- SMARTattrIDtoObsIdx

-- An `int`, given by its 32 bits, where it is stored as an unsigned number of 64 bits.
unfoldable pub int_as_unsigned : ℕ → ℕ
int_as_unsigned bits = let n = bits % 2 ^ 32 in if ltb n (2 ^ 31) then n else n + (2 ^ 64 - 2 ^ 32)

-- `convert` is `ConvertCharStringToTypename` to an `int`: its 32 bits, or `none`.
module _ (convert : Bytes → Option ℕ) where
  -- a number in front of a comma
  unfoldable pub observe_number : Bytes → Observed → Observed
  unfolding int_as_unsigned
  observe_number text s = elim (convert text) [
    | none ↦ s
    | some number ↦
        let id = int_as_unsigned number in
        if ltb s.next (length s.array)
        then record { ids = insert id s.ids; array = set s.array s.next id; next = s.next + 1 }
        else record s { ids = insert id s.ids }
  ]

  -- the loop over the characters, with the number begun
  unfoldable pub observe_chars : Bytes → Bytes → Observed → Observed
  unfolding observe_number
  observe_chars begun [] s = s
  observe_chars begun (c ∷ text) s =
      if c == b','
      then observe_chars [] text (observe_number begun s)
      else observe_chars (begun ++ c ∷ []) text s

  -- `GetSMARTattributesToObserve` with the text of "SMART_parameters_to_observe"; the array then
  -- ends with 0, if there is room
  unfoldable pub get_smart_attributes_to_observe : Bytes → List ℕ → List ℕ → List ℕ × List ℕ
  unfolding observe_chars
  get_smart_attributes_to_observe text ids array =
      let s = observe_chars [] text (record { ids = ids; array = array; next = 0 }) in
      (s.ids, if ltb s.next (length s.array) then set s.array s.next 0 else s.array)

-- The settings of the connection.
pub record SrvCnnctn : Type 0 where
  pub socket_port_number : ℕ
  pub service_host_name : Bytes

-- `ReadSrvCnnctnCfg`, up to the attributes to observe, with the port, 0 if it is missing, and the
-- host of "networkConnection"; `none` are elements that are missing
unfoldable pub read_srv_cnnctn_cfg :
    Option (Option (ℕ × Option Bytes)) → SrvCnnctn → Bool × SrvCnnctn
read_srv_cnnctn_cfg none s = (false, s)
read_srv_cnnctn_cfg (some none) s = (false, s)
read_srv_cnnctn_cfg (some (some (port, none))) s =
    if port == 0 then (false, s) else (false, record s { socket_port_number = port })
read_srv_cnnctn_cfg (some (some (port, some host))) s =
    if port == 0
    then (false, s)
    else (true, record { socket_port_number = port; service_host_name = host })

-- a "data_carrier" element with its "SMART" elements
pub record CarrierElement : Type 0 where
  pub model : Option Bytes
  pub firmware : Option Bytes
  pub max_tera_bytes_written : Option ℕ
  pub params : List (ℕ × Option Bytes)

-- `ModelAndFirmware`
pub record ModelAndFirmware : Type 0 where
  pub model_name : Bytes
  pub firm_ware_name : Bytes
  pub max_tera : ℕ
  pub smart_param_unit : List Bytes

-- `setParamUnit`, and the loop over the "SMART" elements
unfoldable pub set_param_units : List (ℕ × Option Bytes) → List Bytes → Option (List Bytes)
set_param_units [] units = some units
set_param_units ((id, none) ∷ params) units = set_param_units params units
set_param_units ((id, some unit) ∷ params) units =
    if id == 0
    then set_param_units params units
    else if ltb id (length units)
    then set_param_units params (set units id unit)
    else none

module _ (strcmp_sign : Bytes → Bytes → Ordering) where
  -- `ModelAndFirmware::operator <`
  unfoldable pub model_less : ModelAndFirmware → ModelAndFirmware → Bool
  model_less a b = elim (strcmp_sign a.model_name b.model_name) [
    | Ordering.lt ↦ true
    | Ordering.eq ↦ elim (strcmp_sign a.firm_ware_name b.firm_ware_name) [
      | Ordering.lt ↦ true
      | _ ↦ false
    ]
    | Ordering.gt ↦ false
  ]

  -- neither is less: one element for a `std::set`
  unfoldable pub same_key : ModelAndFirmware → ModelAndFirmware → Bool
  unfolding model_less
  same_key a b = not (model_less a b) && not (model_less b a)

  -- `find`; the order of the set is left out
  unfoldable pub find : List ModelAndFirmware → ModelAndFirmware → Option ModelAndFirmware
  unfolding same_key
  find [] key = none
  find (m ∷ ms) key = let rest = find ms key in if same_key m key then some m else rest

  -- `insert`, which keeps an element that is there
  unfoldable pub insert_model : List ModelAndFirmware → ModelAndFirmware → List ModelAndFirmware
  unfolding find
  insert_model ms m = elim (find ms m) [ some _ ↦ ms | none ↦ ms ++ m ∷ [] ]

  -- `getDataCarrierAttrDefs`
  unfoldable pub get_data_carrier_attr_defs :
      List ModelAndFirmware → Bytes → Bytes → Option ModelAndFirmware
  unfolding find
  get_data_carrier_attr_defs ms model firmware = find ms (record {
    model_name = model;
    firm_ware_name = firmware;
    max_tera = 0;
    smart_param_unit = [];
  })

  module _ (num_units : ℕ) where
    -- the object of a "data_carrier" element with both names
    unfoldable pub model_of : Bytes → Bytes → CarrierElement → Option ModelAndFirmware
    unfolding set_param_units
    model_of model firmware e = set_param_units e.params (replicate num_units []) >>= λ units.
        some (record {
          model_name = model;
          firm_ware_name = firmware;
          max_tera = elim (e.max_tera_bytes_written) [ none ↦ 0 | some n ↦ n ];
          smart_param_unit = units;
        })

    -- the loop of `ReadSMARTdataCarrierDefs`
    unfoldable pub read_smart_data_carrier_defs :
        List CarrierElement → List ModelAndFirmware → Option (List ModelAndFirmware)
    unfolding model_of insert_model
    read_smart_data_carrier_defs [] ms = some ms
    read_smart_data_carrier_defs (e ∷ es) ms = elim (e.model) [
      | none ↦ read_smart_data_carrier_defs es ms
      | some model ↦ elim (e.firmware) [
        | none ↦ read_smart_data_carrier_defs es ms
        | some firmware ↦
            model_of model firmware e >>= λ m. read_smart_data_carrier_defs es (insert_model ms m)
      ]
    ]
