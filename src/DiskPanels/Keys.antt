-- ===== src/DiskPanels/Keys.antt =====
-- Which data carriers have a panel for their values.
use smartmonitor.Common.{
  ℕ, ◌+◌, ◌≡◌, refl, Bool, true, List, [], ◌∷◌, ◌++◌, none, some, ◌≤◌, All, arith, length,
  Bool-cases, Option-cases, inl, inr,
}
use smartmonitor.DiskPanels.{panel_of, insert_panel, rebuild_panel_map, panel_to_set}

module _ (Carrier : Type 0) (same_carrier : Carrier → Carrier → Bool) where
  -- As many panels as data carriers are enough to leave the map as it is.
  reused :
      (w : ℕ) (ps panels : List (Carrier × ℕ)) (cs : List Carrier)
      → length cs ≤ length ps
      → rebuild_panel_map Carrier same_carrier w ps panels cs ≡ panels
  unfolding rebuild_panel_map
  reused w ps panels [] h = refl
  reused w [] panels (c ∷ cs) h = ground arith
  reused w (p ∷ ps) panels (c ∷ cs) h = reused (w + 1) ps panels cs (omega (arith, h))

  abbrev pub HasPanel : List (Carrier × ℕ) → Carrier → Type 0
  HasPanel panels c = (id : ℕ) × (panel_of Carrier same_carrier panels c ≡ some id)

  HasPanel-append :
      (panels more : List (Carrier × ℕ)) (c : Carrier)
      → HasPanel panels c
      → HasPanel (panels ++ more) c
  unfolding panel_of
  HasPanel-append [] more c (id, h) = ground arith
  HasPanel-append ((k, i) ∷ panels) more c (id, h) = elim (Bool-cases (same_carrier k c)) [
    | inl e ↦ (i, rw (e) refl)
    | inr e ↦ let (j, q) = HasPanel-append panels more c (id, ground arith) in (j, ground arith)
  ]

  panel_at_end :
      (panels : List (Carrier × ℕ)) (c : Carrier) (w : ℕ)
      → same_carrier c c ≡ true
      → HasPanel (panels ++ (c, w) ∷ []) c
  unfolding panel_of
  panel_at_end [] c w r = (w, rw (r) refl)
  panel_at_end ((k, i) ∷ panels) c w r = elim (Bool-cases (same_carrier k c)) [
    | inl e ↦ (i, rw (e) refl)
    | inr e ↦ let (j, q) = panel_at_end panels c w r in (j, ground arith)
  ]

  HasPanel-insert :
      (panels : List (Carrier × ℕ)) (c d : Carrier) (w : ℕ)
      → HasPanel panels d
      → HasPanel (insert_panel Carrier same_carrier panels c w) d
  unfolding insert_panel
  HasPanel-insert panels c d w h = elim (Option-cases (panel_of Carrier same_carrier panels c)) [
    | inl e ↦ rw (insert_panel, e) (HasPanel-append panels ((c, w) ∷ []) d h)
    | inr (id, e) ↦ rw (insert_panel, e) h
  ]

  inserted :
      (panels : List (Carrier × ℕ)) (c : Carrier) (w : ℕ)
      → same_carrier c c ≡ true
      → HasPanel (insert_panel Carrier same_carrier panels c w) c
  unfolding insert_panel
  inserted panels c w r = elim (Option-cases (panel_of Carrier same_carrier panels c)) [
    | inl e ↦ rw (insert_panel, e) (panel_at_end panels c w r)
    | inr (id, e) ↦ rw (insert_panel, e) (id, e)
  ]

  HasPanel-rebuild :
      (w : ℕ) (panels : List (Carrier × ℕ)) (cs : List Carrier) (d : Carrier)
      → HasPanel panels d
      → HasPanel (rebuild_panel_map Carrier same_carrier w [] panels cs) d
  unfolding rebuild_panel_map
  HasPanel-rebuild w panels [] d h = h
  HasPanel-rebuild w panels (c ∷ cs) d h =
      HasPanel-rebuild (w + 1) _ cs d (HasPanel-insert panels c d w h)

  rebuilt-All :
      (w : ℕ) (panels : List (Carrier × ℕ)) (cs : List Carrier)
      → ((c : Carrier) → same_carrier c c ≡ true)
      → All (HasPanel (rebuild_panel_map Carrier same_carrier w [] panels cs)) cs
  unfolding rebuild_panel_map
  rebuilt-All w panels [] r = tt
  rebuilt-All w panels (c ∷ cs) r = (
    HasPanel-rebuild (w + 1) (insert_panel Carrier same_carrier panels c w) cs c
        (inserted panels c w (r c)),
    rebuilt-All (w + 1) (insert_panel Carrier same_carrier panels c w) cs r,
  )

  -- When the window is rebuilt without panels, each data carrier has one. When it has as many panels as
  -- there are data carriers, or more, those that it keeps are those that it had: the values of a data
  -- carrier that was not shown before have no panel.
  pub panels_lem :
      (w : ℕ) (panels : List (Carrier × ℕ)) (cs : List Carrier) (c : Carrier)
      → ((d : Carrier) → same_carrier d d ≡ true)
      → length cs ≤ length panels
      → panel_of Carrier same_carrier panels c ≡ none
      → All (λ d. (id : ℕ) × (panel_to_set Carrier same_carrier w [] cs d ≡ some id)) cs
        × (panel_to_set Carrier same_carrier w panels cs c ≡ none)
  unfolding panel_to_set
  panels_lem w panels cs c r h n = (rebuilt-All w [] cs r, rw (reused w panels panels cs h) n)
