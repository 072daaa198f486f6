-- ===== src/SupportedDialog.antt =====
-- The window with all supported IDs of a data carrier: src/wxWidgets/SupportedSMARTIDsDialog.cpp, built
-- without direct access. The insertion of an item is that of ListTable.
pub mod Filled
use smartmonitor.Common.{
  ℕ, zero, suc, ◌+◌, Bool, true, false, List, [], ◌∷◌, ◌++◌, Option, none, some, ◌>>=◌, ◌==◌,
  if◌then◌else◌, get_elem?, Bytes, codes,
}
use smartmonitor.IdArray.{write}
use smartmonitor.DataCarrier.{UniqueId}
use smartmonitor.ListTable.{Lines}

-- What is called for an ID: `setIDandLabel` and `upd8rawAndH_andTime`.
pub data FillCall : Type 0 where
  set_id_and_label upd8_raw_and_h_and_time : ℕ → FillCall

-- the calls for an ID
unfoldable pub fill_calls : Bool → Bool → ℕ → List FillCall
fill_calls create found id =
    (if create then set_id_and_label id ∷ [] else [])
    ++ (if found then upd8_raw_and_h_and_time id ∷ [] else [])

module _ (insert_item : List ℕ → ℕ → ℕ → List ℕ) where
  -- what is done for a new item; `none`: beyond the array of line numbers
  unfoldable pub insert_line : Bool → ℕ → ℕ → Lines → Option Lines
  insert_line false id line t = some t
  insert_line true id line t = write t.line_number id line >>= λ a.
      some (record { line_number = a; items = insert_item t.items line id })

  -- The loop of `FillGUI` over the array of supported IDs, with so many entries left. `found` is
  -- whether the data carrier is among those with values.
  unfoldable pub fill_from : ℕ → List ℕ → ℕ → Bool → Bool → Lines → Option (Lines × List FillCall)
  fill_from zero ids line create found t = some (t, [])
  fill_from (suc n) ids line create found t = get_elem? ids line >>= λ id. elim (id == 0) [
    | true ↦ some (t, [])
    | false ↦ insert_line create id line t >>= λ u.
        fill_from n ids (line + 1) create found u >>= λ (r : Lines × List FillCall).
        some (r.0, fill_calls create found id ++ r.1)
  ]

  -- `FillGUI`; `count` is TU_Bln361095dataCarrierNumSATA_SMARTattrIDs.
  unfoldable pub fill_gui : ℕ → List ℕ → Bool → Bool → Lines → Option (Lines × List FillCall)
  unfolding fill_from
  fill_gui count ids create found t = fill_from count ids 0 create found t

-- `SetTitleFromDataCarrierID`
unfoldable pub set_title_from_data_carrier_id : UniqueId → Bytes
set_title_from_data_carrier_id u =
    (u.model_name ++ (codes " " ++ u.firmware_name)) ++ codes "--all supported S.M.A.R.T. IDs"
