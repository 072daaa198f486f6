-- ===== src/TextUi.antt =====
-- The table of the text user interface: `SetAttribute`, `ReBuildUserInterface` and `ChangeState` in
-- src/curses/NcursesUI.cpp. What is drawn with ncurses is a list of texts with their places, newest
-- first; the places of the columns, the names of the columns and the numbers of characters that they
-- need are parameters.
pub mod Lines
use smartmonitor.Common.{
  ℕ, zero, suc, ◌+◌, ◌-◌, ◌%◌, Bool, true, false, List, [], ◌∷◌, ◌++◌, Option, none, some, ltb,
  ◌==◌, if◌then◌else◌, Bytes, codes, take,
}

-- `SMARTvalueRating`
pub data ValueRating : Type 0 where
  no_critical_value smart_value_ok smart_value_warning : ValueRating

-- the pairs of colours
pub data CellColour : Type 0 where
  smart_attribute_color attr_inverted_color smart_value_ok_color smart_value_ok_inverted :
      CellColour

-- the `switch` in `SetAttribute`
unfoldable pub cell_colour : ValueRating → ℕ → CellColour
cell_colour no_critical_value column =
    if column % 2 == 0 then smart_attribute_color else attr_inverted_color
cell_colour smart_value_ok column =
    if column % 2 == 0 then smart_value_ok_color else smart_value_ok_inverted
cell_colour smart_value_warning column =
    if column % 2 == 0 then smart_attribute_color else attr_inverted_color

-- a text that is drawn; `none` is the colour that is set already
pub record Drawn : Type 0 where
  pub line : ℕ
  pub position : ℕ
  pub text : Bytes
  pub colour : Option CellColour

-- `attributeID2LineMapping`, `m_lastLineNumber` and what is drawn
pub record Table : Type 0 where
  pub lines : List (ℕ × ℕ)
  pub last_line_number : ℕ
  pub drawn : List Drawn

-- `attributeID2LineMapping.find`
unfoldable pub line_of : List (ℕ × ℕ) → ℕ → Option ℕ
line_of [] id = none
line_of ((k, l) ∷ more) id = let rest = line_of more id in if k == id then some l else rest

-- an attribute without a line gets the next one
unfoldable pub place : ℕ → Table → Table
unfolding line_of
place id t = elim (line_of t.lines id) [
  | some _ ↦ t
  | none ↦ record t {
    lines = (id, t.last_line_number) ∷ t.lines;
    last_line_number = t.last_line_number + 1;
  }
]

-- `NcursesUI::SetAttribute`, with the number of columns of the window
unfoldable pub set_attribute : (ℕ → ℕ) → ℕ → ℕ → ℕ → Bytes → ValueRating → Table → Table
unfolding place cell_colour line_of
set_attribute char_pos maxx id column text rating t =
    let placed = place id t in
    let line : ℕ = elim (line_of placed.lines id) [ some l ↦ l | none ↦ t.last_line_number ] in
    if ltb (char_pos column) maxx
    then record placed {
      drawn =
          record {
            line = line;
            position = char_pos column;
            text = take (maxx - char_pos column) text;
            colour = some (cell_colour rating column);
          }
          ∷ placed.drawn;
    }
    else placed

-- the loop over the columns in `ReBuildUserInterface`: names and needed numbers of characters
unfoldable pub draw_names : ℕ → List (Bytes × ℕ) → List Drawn → List Drawn
draw_names column [] drawn = drawn
draw_names column ((name, needed) ∷ names) drawn =
    draw_names (column + needed) names
      (record { line = 1; position = column; text = name; colour = none } ∷ drawn)

-- `NcursesUI::ReBuildUserInterface` without the identity of the drive; `set_labels` is
-- `SetSMARTattribIDandNameLabel`
unfoldable pub re_build_user_interface : List (Bytes × ℕ) → (Table → Table) → Table → Table
unfolding draw_names
re_build_user_interface names set_labels t =
    record (set_labels (record t { last_line_number = 2; drawn = draw_names 0 names t.drawn })) {
      last_line_number = 2;
    }

-- `NcursesUI::ChangeState`: the status, of the host and the time of the last update, `none` if there
-- was none; `connected` tells the state
unfoldable pub change_state : Bytes → Option Bytes → Bool → Bytes
change_state host last_update true = codes "connected to \"" ++ host ++ codes "\""
change_state host none false =
    codes "disconnected from " ++ host ++ codes "--never got S.M.A.R.T values"
change_state host (some time) false =
    codes "disconnected from " ++ host ++ codes "--last update:" ++ time ++ codes " (local time)"
