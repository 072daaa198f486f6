-- ===== src/ListTable.antt =====
-- The table of the graphical user interface for one data carrier: src/wxWidgets/SMARTtableListCtrl.cpp.
-- wxWidgets' insertion of an item or a column at a position is the parameter `insert_item`.
pub mod OwnLine
use smartmonitor.Common.{
  ℕ, zero, suc, ◌+◌, ◌-◌, Bool, true, false, List, [], ◌∷◌, ◌++◌, Option, none, some, ◌>>=◌, ltb,
  ◌==◌, if◌then◌else◌, Bytes, get_elem?,
}
use smartmonitor.IdArray.{write, smart_ids_to_read_not_end}

-- The columns of `ATA_SMARTattrTblColIdcs`, in the order of their numbers.
pub data AtaColumn : Type 0 where
  id_col name_col nrmlzd_curr_val nrmlzd_thresh raw_val human_readable_raw_val unit_col unit_range
        last_update :
      AtaColumn

unfoldable pub column_index : AtaColumn → ℕ
column_index id_col = 0
column_index name_col = 1
column_index nrmlzd_curr_val = 2
column_index nrmlzd_thresh = 3
column_index raw_val = 4
column_index human_readable_raw_val = 5
column_index unit_col = 6
column_index unit_range = 7
column_index last_update = 8

-- `createATAcols`: the columns from left to right
unfoldable pub create_ata_cols : (List AtaColumn → ℕ → AtaColumn → List AtaColumn) → List AtaColumn
unfolding column_index
create_ata_cols insert_column =
    let add : AtaColumn → List AtaColumn → List AtaColumn =
      λ c cols. insert_column cols (column_index c) c in
    add last_update (
      add unit_range (
        add unit_col (
          add human_readable_raw_val (
            add raw_val (add name_col (add nrmlzd_thresh (add nrmlzd_curr_val (add id_col []))))))))

-- The red, green and blue parts of a colour.
pub record Rgb : Type 0 where
  pub red : ℕ
  pub green : ℕ
  pub blue : ℕ

-- The operations on ratings, of type `float`: comparisons, and the channels that are computed.
pub record RatingColours (Rating : Type 0) : Type 0 where
  pub is_negative : Rating → Bool  -- < 0.0f
  pub at_most_one : Rating → Bool  -- <= 1.0f
  pub blue_and_green : Rating → ℕ  -- 127 - rating * -127.0f
  pub red_of : Rating → ℕ  -- 255 - (int)(255.0f * rating)

-- `GetClrAccordng1toMns1Rng`
unfoldable pub get_clr_accordng_1_to_mns1_rng :
    {Rating : Type 0} → RatingColours Rating → Rating → Rgb
get_clr_accordng_1_to_mns1_rng o r =
    if o.is_negative r
    then record { red = 255; green = o.blue_and_green r; blue = o.blue_and_green r }
    else if o.at_most_one r
    then record { red = o.red_of r; green = 255; blue = 0 }
    else record { red = 0; green = 255; blue = 255 }

-- `GetClrAccordng1toEnum`: a status without a case leaves the colour.
pub data StatusRating : Type 0 where
  ok at_least_1_warn unknown : StatusRating

unfoldable pub get_clr_accordng_1_to_enum : StatusRating → Rgb → Rgb
get_clr_accordng_1_to_enum ok old = record { red = 0; green = 255; blue = 0 }
get_clr_accordng_1_to_enum at_least_1_warn old = record { red = 255; green = 255; blue = 0 }
get_clr_accordng_1_to_enum unknown old = old

-- The array `m_SMARTattribIDtoLineNumber`, and the IDs of the inserted items from top to bottom.
pub record Lines : Type 0 where
  pub line_number : List ℕ
  pub items : List ℕ

module _ (insert_item : List ℕ → ℕ → ℕ → List ℕ) where
  -- the body of the loop of `CreateLines`; `none`: beyond the array
  unfoldable pub create_line : ℕ → ℕ → Lines → Option Lines
  create_line id line t = write t.line_number id line >>= λ a.
      some (record { line_number = a; items = insert_item t.items id id })

  -- the loop; the fuel is the number of rounds
  unfoldable pub create_lines_from : ℕ → List ℕ → ℕ → Lines → Option Lines
  create_lines_from zero ids line t = none
  create_lines_from (suc fuel) ids line t = elim (smart_ids_to_read_not_end ids line) [
    | none ↦ none
    | some false ↦ some t
    | some true ↦ get_elem? ids line >>= λ id.
        create_line id line t >>= λ u. create_lines_from fuel ids (line + 1) u
  ]

  -- `CreateLines`
  unfoldable pub create_lines : ℕ → List ℕ → Lines → Option Lines
  unfolding create_lines_from
  create_lines fuel ids t = create_lines_from fuel ids 0 t

-- What `SetSMARTattribValue` does with the table.
pub data TableCall : Type 0 where
  set_item : ℕ → ℕ → Bytes → TableCall
  set_item_background_colour : ℕ → Rgb → TableCall

-- `SetSMARTattribValue`; `raw_val_col` is the column of raw values for the bus of the data carrier.
unfoldable pub set_smart_attrib_value :
    {Rating : Type 0}
    → RatingColours Rating
    → ℕ
    → List ℕ
    → ℕ
    → ℕ
    → Bytes
    → Rating
    → Option (List TableCall)
set_smart_attrib_value o raw_val_col line_number id column value r =
    get_elem? line_number id >>= λ line. some (
      set_item line column value
      ∷ (if column == raw_val_col
          then set_item_background_colour line (get_clr_accordng_1_to_mns1_rng o r) ∷ []
          else []))

-- The menu of `OnRightMouseButtonDown`, and `OnPopupClick` for the size of the font.
pub data MenuItem : Type 0 where
  decrease_font_size increase_font_size : MenuItem

unfoldable pub menu_items : ℕ → ℕ → List MenuItem
menu_items min_size size =
    (if ltb min_size size then decrease_font_size ∷ [] else []) ++ (increase_font_size ∷ [])

unfoldable pub on_popup_click : ℕ → MenuItem → ℕ → ℕ
on_popup_click min_size increase_font_size size = size + 1
on_popup_click min_size decrease_font_size size = if ltb min_size size then size - 1 else size
