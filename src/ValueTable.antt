-- ===== src/ValueTable.antt =====
-- The table of values that a client shows: `setIDandLabel`, `SetSMARTattribIDandNameLabel`,
-- `upd8rawAndH_andTime`, `UpdateTimeOfSMARTvalueRetrieval` and `UpdateSMARTvaluesUI` in
-- src/client/SMARTmonitorClient.cpp, and the columns in src/UserInterface/columnIndices.hpp. The
-- rating of a value is a parameter here and what is shown of its unit an input; the modules Rating and
-- Display model them. A list of calls is oldest first.
pub mod Update
pub mod History
use smartmonitor.Common.{
  ℕ, zero, suc, ◌+◌, Bool, true, false, ◌&&◌, ◌||◌, not, List, [], ◌∷◌, ◌++◌, Option, none, some,
  ◌>>=◌, ◌==◌, if◌then◌else◌, Bytes, codes,
}
use smartmonitor.Common.Decimal.{decimal}
use smartmonitor.Common.Texts.{same}
use smartmonitor.TimeFormat.{fmt_via_oss}
use smartmonitor.Display.{Shown}

-- The columns of both enumerations. NVMe has no normalized values.
pub data Column : Type 0 where
  id_col name_col nrmlzd_curr_val nrmlzd_thresh raw_val human_readable_raw_val : Column
  unit_col unit_range last_update : Column

-- `ATA_SMARTattrTblColIdx`
unfoldable pub ata_col_idx : Column → Option ℕ
ata_col_idx id_col = some 0
ata_col_idx name_col = some 1
ata_col_idx nrmlzd_curr_val = some 2
ata_col_idx nrmlzd_thresh = some 3
ata_col_idx raw_val = some 4
ata_col_idx human_readable_raw_val = some 5
ata_col_idx unit_col = some 6
ata_col_idx unit_range = some 7
ata_col_idx last_update = some 8

-- `NVMeSMARTattrColIdx`
unfoldable pub nvme_col_idx : Column → Option ℕ
nvme_col_idx id_col = some 0
nvme_col_idx name_col = some 1
nvme_col_idx nrmlzd_curr_val = none
nvme_col_idx nrmlzd_thresh = none
nvme_col_idx raw_val = some 2
nvme_col_idx unit_col = some 3
nvme_col_idx human_readable_raw_val = some 4
nvme_col_idx unit_range = some 5
nvme_col_idx last_update = some 6

-- the index for a bus type
unfoldable pub col_idx : Bool → Column → Option ℕ
unfolding nvme_col_idx ata_col_idx
col_idx nvme c = if nvme then nvme_col_idx c else ata_col_idx c

-- `SetAttribute(sMARTuniqueID, SMARTattributeID, column, text, rating)`. A column that is `none` is a
-- variable that nothing was assigned to.
pub record SetAttribute (F : Type 0) : Type 0 where
  pub attr_id : ℕ
  pub column : Option ℕ
  pub text : Bytes
  pub rating : F

-- What `upd8rawAndH_andTime` reads of an attribute. `consistent` is what `IsConsistent` returns,
-- `retrieval_time` the milliseconds, 0 if getting them fails.
pub record AttrView : Type 0 where
  pub view_id : ℕ
  pub successfully_read : Bool
  pub consistent : Bool
  pub retrieval_time : ℕ
  pub raw_text : Bytes  -- of `fmtRawVal`
  pub nrmlzd_curr : ℕ
  pub nrmlzd_thresh_val : ℕ
  pub shown : Shown  -- of the search for the unit

module _ (F : Type 0) (no_critical_val unknown : F) (nvme : Bool) where
  unfoldable pub cell : ℕ → Column → Bytes → F → SetAttribute F
  unfolding col_idx
  cell id c text rating = record {
    attr_id = id;
    column = col_idx nvme c;
    text = text;
    rating = rating;
  }

  -- `setIDandLabel`, with the name of the definition
  unfoldable pub set_id_and_label : ℕ → Bytes → List (SetAttribute F)
  unfolding cell
  set_id_and_label id name =
      cell id id_col (decimal id) no_critical_val ∷ cell id name_col name no_critical_val ∷ []

  -- `UpdateTimeOfSMARTvalueRetrieval`
  unfoldable pub update_time_of_smart_value_retrieval : ℕ → ℕ → SetAttribute F
  unfolding cell
  update_time_of_smart_value_retrieval id ms = cell id last_update (fmt_via_oss ms) no_critical_val

  -- the calls for the normalized values
  unfoldable pub normalized_cells : AttrView → F → List (SetAttribute F)
  unfolding cell
  normalized_cells v rating =
      if nvme
      then []
      else cell v.view_id nrmlzd_curr_val (decimal v.nrmlzd_curr) rating
        ∷ cell v.view_id nrmlzd_thresh (decimal v.nrmlzd_thresh_val) rating
        ∷ []

  unfoldable pub range_cells : AttrView → F → List (SetAttribute F)
  unfolding cell
  range_cells v rating =
      if same v.shown.unit_accuracy []
      then []
      else cell v.view_id unit_range v.shown.unit_accuracy rating ∷ []

  -- the calls for a value that is shown
  unfoldable pub value_cells : AttrView → F → List (SetAttribute F)
  unfolding normalized_cells range_cells cell update_time_of_smart_value_retrieval
  value_cells v rating =
      normalized_cells v rating
      ++ (cell v.view_id raw_val v.raw_text rating
          ∷ cell v.view_id human_readable_raw_val v.shown.human_readable rating
          ∷ cell v.view_id unit_col v.shown.unit_text rating
          ∷ (range_cells v rating
              ++ (update_time_of_smart_value_retrieval v.view_id v.retrieval_time ∷ [])))

  -- `upd8rawAndH_andTime`: the calls, and the rating that is returned; `none` is a variable that
  -- nothing was assigned to. `rate` is `GetSMARTattrValRtng` with the real value.
  unfoldable pub upd8_raw_and_h_and_time : (ℕ → ℕ → F) → AttrView → List (SetAttribute F) × Option F
  unfolding value_cells
  upd8_raw_and_h_and_time rate v =
      let rating = rate v.view_id v.shown.real_circa in
      if v.successfully_read
      then (if v.consistent && not (v.retrieval_time == 0)
          then (value_cells v rating, some rating)
          else ([], none))
      else (
        (record {
          attr_id = v.view_id;
          column = none;
          text = codes "not read yet";
          rating = unknown;
        })
            ∷ [],
        some unknown,
      )

-- `SMARTvals::Rating`, as far as `UpdateSMARTvaluesUI` uses it
pub data OverallRating : Type 0 where
  overall_unknown at_least_1_warn : OverallRating

-- What `UpdateSMARTvaluesUI` calls: `SetAttribute`, `ChangeConnectionState(valUpd8)` and
-- `ShowStateAccordingToSMARTvalues`.
pub data UiCall (F : Type 0) : Type 0 where
  set_attribute : SetAttribute F → UiCall F
  val_upd8 : UiCall F
  show_state : OverallRating → UiCall F

-- A data carrier as `UpdateSMARTvaluesUI` reads it: the bus type, the rating of a value, and the
-- attributes of its IDs to read.
pub record CarrierView (F : Type 0) : Type 0 where
  pub nvme : Bool
  pub rate : ℕ → ℕ → F
  pub views : List AttrView

-- `!=` on the ratings
unfoldable pub differs : OverallRating → OverallRating → Bool
differs overall_unknown overall_unknown = false
differs at_least_1_warn at_least_1_warn = false
differs _ _ = true

module _ (F : Type 0) where
  unfoldable pub set_calls : List (SetAttribute F) → List (UiCall F)
  set_calls [] = []
  set_calls (c ∷ cs) = set_attribute c ∷ set_calls cs

module _ (F : Type 0) (no_critical_val unknown : F) (below_warn : F → Bool) where
  -- the inner loop, over the attributes of a data carrier
  unfoldable pub update_views :
      Bool → (ℕ → ℕ → F) → List AttrView → OverallRating → Option (List (UiCall F) × OverallRating)
  unfolding set_calls
  update_views nvme rate [] overall = some ([], overall)
  update_views nvme rate (v ∷ vs) overall =
      let (cells, rating) = upd8_raw_and_h_and_time F no_critical_val unknown nvme rate v in
      rating >>= λ r.
      update_views nvme rate vs (if below_warn r then at_least_1_warn else overall) >>= λ t.
      some (set_calls F cells ++ t.0, t.1)

  -- the loop over the data carriers
  unfoldable pub update_carriers :
      List (CarrierView F) → OverallRating → Option (List (UiCall F) × OverallRating)
  unfolding update_views
  update_carriers [] overall = some ([], overall)
  update_carriers (c ∷ cs) overall = update_views c.nvme c.rate c.views overall >>= λ s.
      update_carriers cs s.1 >>= λ t. some (s.0 ++ t.0, t.1)

  -- `UpdateSMARTvaluesUI`: the calls and the new `s_entireSMARTstatus`; `running` tells whether the
  -- thread that updates the values runs
  unfoldable pub update_smart_values_ui :
      Bool → OverallRating → List (CarrierView F) → Option (List (UiCall F) × OverallRating)
  unfolding update_carriers differs
  update_smart_values_ui running status carriers = update_carriers carriers overall_unknown >>= λ t.
      some (
        t.0
            ++ ((if running then val_upd8 ∷ [] else [])
                ++ (if differs status t.1 then show_state t.1 ∷ [] else [])),
        t.1,
      )
