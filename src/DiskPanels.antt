-- ===== src/DiskPanels.antt =====
-- The panels for the data carriers in the window of the graphical user interface: what
-- src/wxWidgets/wxSMARTmonitorDialog.cpp and `SetAttribute` in src/wxWidgets/wxSMARTmonitorApp.cpp do
-- beside drawing.
pub mod Buttons
pub mod Keys
use smartmonitor.Common.{
  ℕ, zero, suc, ◌+◌, Bool, true, false, List, [], ◌∷◌, ◌++◌, Option, none, some, ◌==◌,
  if◌then◌else◌,
}

-- The buttons: a panel for a data carrier has one with a window ID, and `m_evtID2SMARTuniqueID` maps
-- window IDs to data carriers.
module _ (Carrier : Type 0) where
  abbrev pub EventMap : Type 0
  EventMap = List (ℕ × Carrier)

  -- `std::map::find` in a map with one entry per key
  unfoldable pub carrier_of : EventMap → ℕ → Option Carrier
  carrier_of [] id = none
  carrier_of ((k, c) ∷ more) id = let rest = carrier_of more id in if k == id then some c else rest

  -- The loop of `SMARTdialog::CreatePerDiskUIctrls`: the panels with the window IDs of their buttons.
  -- `windowID` stays as it is.
  unfoldable pub create_panels : ℕ → List Carrier → List (ℕ × Carrier)
  create_panels window_id [] = []
  create_panels window_id (c ∷ cs) = (window_id, c) ∷ create_panels window_id cs

  -- the map that is left by it: `insert` keeps an entry that is there
  unfoldable pub create_events : ℕ → List Carrier → EventMap
  create_events window_id [] = []
  create_events window_id (c ∷ cs) = (window_id, c) ∷ []

  -- The loop of `SMARTdialog::ReBuildUserInterface`: the panels that are there are used one after
  -- another for the data carriers, with the window IDs of their buttons, and further ones created.
  unfoldable pub rebuild_panels : ℕ → List (ℕ × Carrier) → List Carrier → List (ℕ × Carrier)
  rebuild_panels window_id panels [] = []
  rebuild_panels window_id [] (c ∷ cs) = (window_id, c) ∷ rebuild_panels (window_id + 1) [] cs
  rebuild_panels window_id (p ∷ ps) (c ∷ cs) = (p.0, c) ∷ rebuild_panels (window_id + 1) ps cs

  -- and the new map of window IDs
  unfoldable pub rebuild_events : ℕ → List Carrier → EventMap
  rebuild_events window_id [] = []
  rebuild_events window_id (c ∷ cs) = (window_id, c) ∷ rebuild_events (window_id + 1) cs

  -- `SMARTdialog::OnShowSupportedSMART_IDs`: whose IDs are shown; `none` is the message that there is
  -- no data
  unfoldable pub on_show_supported_smart_ids : EventMap → ℕ → Option Carrier
  unfolding carrier_of
  on_show_supported_smart_ids events id = carrier_of events id

  -- `m_SMARTuniqueID2perDataCarrierPanel`: data carriers with the window IDs of the buttons of their
  -- panels. `same_carrier` tells whether two data carriers are one key. The order of the map is left
  -- out.
  module _ (same_carrier : Carrier → Carrier → Bool) where
    unfoldable pub panel_of : List (Carrier × ℕ) → Carrier → Option ℕ
    panel_of [] c = none
    panel_of ((k, id) ∷ more) c =
        let rest = panel_of more c in if same_carrier k c then some id else rest

    -- `insert`, which keeps an entry that is there
    unfoldable pub insert_panel : List (Carrier × ℕ) → Carrier → ℕ → List (Carrier × ℕ)
    unfolding panel_of
    insert_panel panels c id = elim (panel_of panels c) [
      | some _ ↦ panels
      | none ↦ panels ++ (c, id) ∷ []
    ]

    -- what the loop of `ReBuildUserInterface` makes of the map; the first list is what its iterator has
    -- before it
    unfoldable pub rebuild_panel_map :
        ℕ → List (Carrier × ℕ) → List (Carrier × ℕ) → List Carrier → List (Carrier × ℕ)
    unfolding insert_panel
    rebuild_panel_map window_id left panels [] = panels
    rebuild_panel_map window_id [] panels (c ∷ cs) =
        rebuild_panel_map (window_id + 1) [] (insert_panel panels c window_id) cs
    rebuild_panel_map window_id (p ∷ ps) panels (c ∷ cs) =
        rebuild_panel_map (window_id + 1) ps panels cs

    -- the panel that `wxSMARTmonitorApp::SetAttribute` writes to behind a rebuilding; `none` is the NULL
    -- that it then uses
    unfoldable pub panel_to_set : ℕ → List (Carrier × ℕ) → List Carrier → Carrier → Option ℕ
    unfolding rebuild_panel_map panel_of
    panel_to_set window_id panels cs c = panel_of (rebuild_panel_map window_id panels panels cs) c
