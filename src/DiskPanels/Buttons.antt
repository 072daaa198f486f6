-- ===== src/DiskPanels/Buttons.antt =====
-- Which data carrier a button shows.
use smartmonitor.Common.{ℕ, ◌+◌, ◌≡◌, List, [], ◌∷◌, some, ◌<◌, All, arith}
use smartmonitor.DiskPanels.{
  carrier_of, create_panels, rebuild_panels, rebuild_events, on_show_supported_smart_ids,
}

module _ (Carrier : Type 0) where
  -- the button of a panel shows the data carrier of the panel
  abbrev pub IsOwn : List (ℕ × Carrier) → ℕ × Carrier → Type 0
  IsOwn events p = on_show_supported_smart_ids Carrier events p.0 ≡ some p.1

  -- the button of a panel shows this data carrier
  abbrev pub IsShowing : Carrier → List (ℕ × Carrier) → ℕ × Carrier → Type 0
  IsShowing c events p = on_show_supported_smart_ids Carrier events p.0 ≡ some c

  head_found :
      (w : ℕ) (c : Carrier) (events : List (ℕ × Carrier))
      → on_show_supported_smart_ids Carrier ((w, c) ∷ events) w ≡ some c
  unfolding carrier_of on_show_supported_smart_ids
  head_found w c events = ground arith

  later_found :
      (id w : ℕ) (c : Carrier) (events : List (ℕ × Carrier))
      → w < id
      → on_show_supported_smart_ids Carrier ((w, c) ∷ events) id
        ≡ on_show_supported_smart_ids Carrier events id
  unfolding carrier_of on_show_supported_smart_ids
  later_found id w c events h = ground arith

  IsOwn-cons :
      (w : ℕ) (c : Carrier) (events ps : List (ℕ × Carrier))
      → All (λ p. w < p.0) ps
      → All (IsOwn events) ps
      → All (IsOwn ((w, c) ∷ events)) ps
  IsOwn-cons w c events [] b h = tt
  IsOwn-cons w c events (p ∷ ps) (b, bs) (h, hs) =
      (rw (later_found p.0 w c events b) h, IsOwn-cons w c events ps bs hs)

  ids_above :
      (v w : ℕ) (cs : List Carrier)
      → v < w
      → All (λ (p : ℕ × Carrier). v < p.0) (rebuild_panels Carrier w [] cs)
  unfolding rebuild_panels
  ids_above v w [] h = tt
  ids_above v w (c ∷ cs) h = (h, ids_above v (w + 1) cs (omega (arith, h)))

  rebuilt-IsOwn :
      (w : ℕ) (cs : List Carrier)
      → All (IsOwn (rebuild_events Carrier w cs)) (rebuild_panels Carrier w [] cs)
  unfolding rebuild_panels rebuild_events
  rebuilt-IsOwn w [] = tt
  rebuilt-IsOwn w (c ∷ cs) = (
    head_found w c (rebuild_events Carrier (w + 1) cs),
    IsOwn-cons w c (rebuild_events Carrier (w + 1) cs) _ (ids_above w (w + 1) cs (omega arith))
        (rebuilt-IsOwn (w + 1) cs),
  )

  created_first :
      (base w : ℕ) (cs : List Carrier) (c : Carrier) (events : List (ℕ × Carrier))
      → on_show_supported_smart_ids Carrier events base ≡ some c
      → All (IsShowing c events) (rebuild_panels Carrier w (create_panels Carrier base cs) cs)
  unfolding rebuild_panels create_panels
  created_first base w [] c events h = tt
  created_first base w (d ∷ cs) c events h = (h, created_first base (w + 1) cs c events h)

  -- When the panels are created while the window is rebuilt, each button shows the data carrier of its
  -- panel. When they were created with the window for the same data carriers, all buttons show
  -- the first data carrier.
  pub buttons_lem :
      (base : ℕ) (c : Carrier) (cs : List Carrier)
      → All (IsOwn (rebuild_events Carrier base (c ∷ cs))) (rebuild_panels Carrier base [] (c ∷ cs))
        × All
            (IsShowing c (rebuild_events Carrier base (c ∷ cs)))
            (rebuild_panels Carrier base (create_panels Carrier base (c ∷ cs)) (c ∷ cs))
  unfolding rebuild_events
  buttons_lem base c cs = (
    rebuilt-IsOwn base (c ∷ cs),
    created_first base base (c ∷ cs) c _ (head_found base c (rebuild_events Carrier (base + 1) cs)),
  )
