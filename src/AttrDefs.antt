-- ===== src/AttrDefs.antt =====
-- The definitions of S.M.A.R.T. attributes: src/attributes/SMARTattrDef.hpp,
-- src/attributes/SMARTattrDefAccss.hpp, `setDfltSMARTattrDef`, `SetSMARTattributesToObserve`,
-- `EnsureSMARTattrToObsExist` and `StartAsyncUpdateThread` in src/SMARTmonitorBase.cpp. The array of
-- definitions is a list of its length; `none` is an access beyond it. A `std::set` of IDs is its
-- ascending list.
pub mod Table
pub mod Observe
use smartmonitor.Common.{
  ℕ, zero, suc, ◌+◌, Bool, true, false, List, [], ◌∷◌, Option, none, some, ◌>>=◌, ltb, ◌==◌,
  if◌then◌else◌, Bytes, codes, length, get_elem?, set,
}
use smartmonitor.Common.Sets.{insert}

pub record SmartAttrDef : Type 0 where
  pub critical_attribute : Bool
  pub attribute_id : ℕ
  pub attribute_name : Bytes

-- TU_Bln361095numMaxATA_SMART_IDsPlus1 is the length of the array.
unfoldable pub store : List SmartAttrDef → ℕ → SmartAttrDef → Option (List SmartAttrDef)
store defs id d = if ltb id (length defs) then some (set defs id d) else none

-- `Add(sMARTattrDef, SMARTattrDefArr)`
unfoldable pub add : List SmartAttrDef → SmartAttrDef → Option (List SmartAttrDef)
unfolding store
add defs d = store defs d.attribute_id d

-- `Set(attrID, attrName)`. The constructor leaves `m_criticalAttribute` as it is in memory.
unfoldable pub set_def : Bool → List SmartAttrDef → ℕ → Bytes → Option (List SmartAttrDef)
unfolding store
set_def memory defs id name =
    store defs id (record { critical_attribute = memory; attribute_id = id; attribute_name = name })

-- the loop of `clearSMARTattrDefs`
unfoldable pub clear_smart_attr_defs : List SmartAttrDef → List SmartAttrDef
clear_smart_attr_defs [] = []
clear_smart_attr_defs (d ∷ defs) =
    record { critical_attribute = false; attribute_id = 0; attribute_name = [] }
    ∷ clear_smart_attr_defs defs

-- the loop of `GetNumSMARTattrDefs`
unfoldable pub get_num_smart_attr_defs : List SmartAttrDef → ℕ
get_num_smart_attr_defs [] = 0
get_num_smart_attr_defs (d ∷ defs) =
    let rest = get_num_smart_attr_defs defs in if d.attribute_id == 0 then rest else 1 + rest

-- `getSMARTattrDef(SMARTattrID, SMARTattrDefArr)`, the address of an element
unfoldable pub get_smart_attr_def : List SmartAttrDef → ℕ → Option SmartAttrDef
get_smart_attr_def defs id = get_elem? defs id

-- `Set` called for one definition after another
unfoldable pub set_defs : Bool → List SmartAttrDef → List (ℕ × Bytes) → Option (List SmartAttrDef)
set_defs memory defs [] = some defs
set_defs memory defs ((id, name) ∷ more) =
    set_def memory defs id name >>= λ later. set_defs memory later more

-- the calls of `setDfltSMARTattrDef`
abbrev pub dflt_smart_attr_defs : List (ℕ × Bytes)
dflt_smart_attr_defs =
    (1, codes "Read Error Rate")
    ∷ (2, codes "Throughput Performance")
    ∷ (3, codes "Spin-Up Time")
    ∷ (4, codes "Start/Stop Count")
    ∷ (5, codes "Reallocated Sectors Count")
    ∷ (6, codes "Read Channel Margin")
    ∷ (7, codes "Seek Error Rate")
    ∷ (8, codes "Seek Time Performances")
    ∷ (9, codes "Power-On Time")
    ∷ (10, codes "Spin Retry Count")
    ∷ (11, codes "Recalibration Retries or Calibration Retry Count")
    ∷ (12, codes "Power Cycle Count")
    ∷ (100, codes "Data Erased")
    ∷ (168, codes "SATA Physical Error Count")
    ∷ (169, codes "Bad Block Count")
    ∷ (171, codes "Program Fail Count")
    ∷ (172, codes "SSD Erase Fail Count")
    ∷ (174, codes "Unexpected Power Loss Count")
    ∷ (175, codes "Power Loss Protection Failure")
    ∷ (176, codes "Erase Fail Count")
    ∷ (177, codes "Wear Range Delta")
    ∷ (178, codes "Used Reserved Block Count (Chip)")
    ∷ (179, codes "Used Reserved Block Count Total")
    ∷ (180, codes "Unused Reserved Block Count Total")
    ∷ (181, codes "Program Fail Count")
    ∷ (182, codes "Erase Fail Count")
    ∷ (183, codes "Runtime Bad Blocks")
    ∷ (184, codes "End to End Error")
    ∷ (187, codes "Reported Uncorrectable Errors")
    ∷ (188, codes "Command Timeout")
    ∷ (189, codes "High Fly Writes")
    ∷ (190, codes "Temperature Difference or Airflow Temperature")
    ∷ (191, codes "G-sense Error Rate")
    ∷ (192, codes "Power-off/Emergency Retract Count")
    ∷ (193, codes "Load(/Unload) Cycle Count")
    ∷ (194, codes "Temperature Celsius")
    ∷ (195, codes "Hardware ECC Recovered")
    ∷ (196, codes "Reallocation Event Count")
    ∷ (197, codes "Current Pending Sector Count")
    ∷ (198, codes "Uncorrectable Sector Count")
    ∷ (199, codes "UltraDMA CRC Error Count")
    ∷ (200, codes "Multi-Zone Error Rate or Write Error Rate")
    ∷ (201, codes "Soft Read Error Rate or TA Counter Detected")
    ∷ (204, codes "Soft ECC Correction")
    ∷ (212, codes "Shock During Write")
    ∷ (220, codes "Disk Shift")
    ∷ (223, codes "Load/Unload Retry Count")
    ∷ (234, codes "Average erase count AND Maximum Erase Count")
    ∷ (235, codes "Good Block Count AND System(Free) Block Count")
    ∷ (240, codes "Head Flying Hours/Transfer Error Rate")
    ∷ (241, codes "Total Data Written")
    ∷ (242, codes "Total Data Read")
    ∷ (250, codes "Read Error Retry Rate")
    ∷ (254, codes "Free Fall Protection")
    ∷ []

unfoldable pub set_dflt_smart_attr_def : Bool → List SmartAttrDef → Option (List SmartAttrDef)
unfolding set_defs
set_dflt_smart_attr_def memory defs = set_defs memory defs dflt_smart_attr_defs

-- The inner loop of `SetSMARTattributesToObserve`: the flags `m_successfullyReadSMARTrawValue` of the
-- IDs from `id` on.
unfoldable pub observe_carrier : List Bool → ℕ → List ℕ → List ℕ
observe_carrier [] id ids = ids
observe_carrier (true ∷ flags) id ids = observe_carrier flags (id + 1) (insert id ids)
observe_carrier (false ∷ flags) id ids = observe_carrier flags (id + 1) ids

unfoldable pub observe_carriers : List (List Bool) → List ℕ → List ℕ
observe_carriers [] ids = ids
observe_carriers (flags ∷ carriers) ids = observe_carriers carriers (observe_carrier flags 0 ids)

-- `SetSMARTattributesToObserve`
unfoldable pub set_smart_attributes_to_observe : List (List Bool) → List ℕ
unfolding observe_carriers
set_smart_attributes_to_observe carriers = observe_carriers carriers []

-- the loop of `EnsureSMARTattrToObsExist`, built without direct access: `count` IDs from `id` on
unfoldable pub insert_ids : ℕ → ℕ → List ℕ → List ℕ
insert_ids zero id ids = ids
insert_ids (suc count) id ids = insert_ids count (id + 1) (insert id ids)

unfoldable pub ensure_smart_attr_to_obs_exist : ℕ → List ℕ → List ℕ
unfolding insert_ids
ensure_smart_attr_to_obs_exist num_ids [] = insert_ids num_ids 0 []
ensure_smart_attr_to_obs_exist num_ids (id ∷ ids) = id ∷ ids

-- `StartAsyncUpdateThread`: whether the thread is started
unfoldable pub start_async_update_thread : List ℕ → Bool
start_async_update_thread ids = ltb 0 (length ids)
