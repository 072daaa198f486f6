-- ===== src/ValueTable/Update.antt =====
-- The overall rating, and what is shown of it.
use smartmonitor.Common.{
  ℕ, ◌≡◌, ◌⊎◌, refl, Bool, true, false, ◌||◌, List, [], ◌∷◌, ◌++◌, some, arith, if◌then◌else◌, ◌==◌,
  All, ap,
}
use smartmonitor.ValueTable.{
  AttrView, upd8_raw_and_h_and_time, OverallRating, overall_unknown, at_least_1_warn, UiCall,
  val_upd8, show_state, CarrierView, set_calls, differs, update_views, update_carriers,
  update_smart_values_ui,
}

module _ (F : Type 0) (no_critical_val unknown : F) (below_warn : F → Bool) where
  -- An attribute that was read has a consistent value and a time.
  abbrev pub IsRated : AttrView → Type 0
  IsRated v =
      (v.successfully_read ≡ false) ⊎ ((v.consistent ≡ true) × ((v.retrieval_time == 0) ≡ false))

  abbrev pub IsRatedCarrier : CarrierView F → Type 0
  IsRatedCarrier c = All IsRated c.views

  abbrev pub rating_of : (ℕ → ℕ → F) → AttrView → F
  rating_of rate v = if v.successfully_read then rate v.view_id v.shown.real_circa else unknown

  unfoldable pub any_view_warns : (ℕ → ℕ → F) → List AttrView → Bool
  any_view_warns rate [] = false
  any_view_warns rate (v ∷ vs) = below_warn (rating_of rate v) || any_view_warns rate vs

  unfoldable pub any_warns : List (CarrierView F) → Bool
  any_warns [] = false
  any_warns (c ∷ cs) = any_view_warns c.rate c.views || any_warns cs

  abbrev pub overall_of : Bool → OverallRating → OverallRating
  overall_of warns before = if warns then at_least_1_warn else before

  overall_or :
      (a b : Bool) (before : OverallRating)
      → overall_of b (overall_of a before) ≡ overall_of (a || b) before
  overall_or true true before = refl
  overall_or true false before = refl
  overall_or false b before = refl

  upd8_rated :
      (nvme : Bool) (rate : ℕ → ℕ → F) (v : AttrView)
      → IsRated v
      → (upd8_raw_and_h_and_time F no_critical_val unknown nvme rate v).1 ≡ some (rating_of rate v)
  unfolding upd8_raw_and_h_and_time
  upd8_rated nvme rate v h = ground arith

  update_views_lem :
      (nvme : Bool) (rate : ℕ → ℕ → F) (vs : List AttrView) (before : OverallRating)
      → All IsRated vs
      → (calls : List (UiCall F)) × (update_views F no_critical_val unknown below_warn nvme rate vs
            before
          ≡ some (calls, overall_of (any_view_warns rate vs) before))
  unfolding update_views any_view_warns
  update_views_lem nvme rate [] before h = ([], refl)
  update_views_lem nvme rate (v ∷ vs) before (h, hs) =
      let warns = below_warn (rating_of rate v) in
      let (calls, q) = update_views_lem nvme rate vs (overall_of warns before) hs in
      let cells = (upd8_raw_and_h_and_time F no_critical_val unknown nvme rate v).0 in
      (
        set_calls F cells ++ calls,
        rw (upd8_rated nvme rate v h, q)
            (ap (λ o. some (set_calls F cells ++ calls, o))
              (overall_or warns (any_view_warns rate vs) before)),
      )

  pub update_carriers_lem :
      (cs : List (CarrierView F)) (before : OverallRating)
      → All IsRatedCarrier cs
      → (calls : List (UiCall F)) × (update_carriers F no_critical_val unknown below_warn cs before
          ≡ some (calls, overall_of (any_warns cs) before))
  unfolding update_carriers any_warns
  update_carriers_lem [] before h = ([], refl)
  update_carriers_lem (c ∷ cs) before (h, hs) =
      let (calls, q) = update_views_lem c.nvme c.rate c.views before h in
      let warns = any_view_warns c.rate c.views in
      let (more, r) = update_carriers_lem cs (overall_of warns before) hs in
      (
        calls ++ more,
        rw (q, r) (ap (λ o. some (calls ++ more, o)) (overall_or warns (any_warns cs) before)),
      )

  -- When each attribute that was read has a consistent value and a time, the update returns, and the
  -- new overall rating is "at least one warning" exactly if some attribute of some data carrier is
  -- rated below the threshold; else it is "unknown", never "OK".
  pub overall_iff :
      (running : Bool) (status : OverallRating) (cs : List (CarrierView F))
      → All IsRatedCarrier cs
      → (calls : List (UiCall F)) × (update_smart_values_ui F no_critical_val unknown below_warn
            running status cs
          ≡ some (calls, if any_warns cs then at_least_1_warn else overall_unknown))
  unfolding update_smart_values_ui
  overall_iff running status cs h =
      let (calls, q) = update_carriers_lem cs overall_unknown h in
      let rating = overall_of (any_warns cs) overall_unknown in
      (
        calls
            ++ ((if running then val_upd8 ∷ [] else [])
                ++ (if differs status rating then show_state rating ∷ [] else [])),
        rw (q) refl,
      )
