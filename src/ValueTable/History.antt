-- ===== src/ValueTable/History.antt =====
-- The overall rating that the user interface was given last is the stored one.
use smartmonitor.Common.{
  ℕ, ◌≡◌, refl, Bool, true, false, List, [], ◌∷◌, ◌++◌, Option, none, some, ◌>>=◌, if◌then◌else◌,
  All, ap, subst, ◌∙◌,
}
use smartmonitor.ValueTable.{
  SetAttribute, AttrView, upd8_raw_and_h_and_time, OverallRating, overall_unknown, at_least_1_warn,
  UiCall, set_attribute, val_upd8, show_state, CarrierView, set_calls, differs, update_views,
  update_carriers, update_smart_values_ui,
}
use smartmonitor.ValueTable.Update.{IsRatedCarrier, any_warns, overall_of, update_carriers_lem}

module _ (F : Type 0) (no_critical_val unknown : F) (below_warn : F → Bool) where
  -- the overall rating that was given last, behind the calls
  unfoldable pub last_shown : OverallRating → List (UiCall F) → OverallRating
  last_shown shown [] = shown
  last_shown shown (set_attribute c ∷ calls) = last_shown shown calls
  last_shown shown (val_upd8 ∷ calls) = last_shown shown calls
  last_shown shown (show_state r ∷ calls) = last_shown r calls

  last_shown-append :
      (shown : OverallRating) (xs ys : List (UiCall F))
      → last_shown shown (xs ++ ys) ≡ last_shown (last_shown shown xs) ys
  unfolding last_shown
  last_shown-append shown [] ys = refl
  last_shown-append shown (set_attribute c ∷ xs) ys = last_shown-append shown xs ys
  last_shown-append shown (val_upd8 ∷ xs) ys = last_shown-append shown xs ys
  last_shown-append shown (show_state r ∷ xs) ys = last_shown-append r xs ys

  last_shown-set_calls :
      (shown : OverallRating) (cs : List (SetAttribute F))
      → last_shown shown (set_calls F cs) ≡ shown
  unfolding last_shown set_calls
  last_shown-set_calls shown [] = refl
  last_shown-set_calls shown (c ∷ cs) = last_shown-set_calls shown cs

  -- An update, if it returns, shows no overall rating so far.
  abbrev pub Keeps : OverallRating → Option (List (UiCall F) × OverallRating) → Type 0
  Keeps shown none = Unit
  Keeps shown (some t) = last_shown shown t.0 ≡ shown

  Keeps-rated :
      (shown : OverallRating) (r : Option F) (k : F → Option (List (UiCall F) × OverallRating))
      → ((x : F) → Keeps shown (k x))
      → Keeps shown (r >>= k)
  Keeps-rated shown none k h = tt
  Keeps-rated shown (some x) k h = h x

  Keeps-set_calls :
      (shown : OverallRating) (cells : List (SetAttribute F))
      (o : Option (List (UiCall F) × OverallRating))
      → Keeps shown o
      → Keeps shown (o >>= λ t. some (set_calls F cells ++ t.0, t.1))
  Keeps-set_calls shown cells none h = tt
  Keeps-set_calls shown cells (some (calls, r)) h =
      last_shown-append shown (set_calls F cells) calls
      ∙ (ap (λ s. last_shown s calls) (last_shown-set_calls shown cells) ∙ h)

  Keeps-update_views :
      (nvme : Bool) (rate : ℕ → ℕ → F) (vs : List AttrView) (before shown : OverallRating)
      → Keeps shown (update_views F no_critical_val unknown below_warn nvme rate vs before)
  unfolding update_views last_shown
  Keeps-update_views nvme rate [] before shown = refl
  Keeps-update_views nvme rate (v ∷ vs) before shown =
      Keeps-rated shown (upd8_raw_and_h_and_time F no_critical_val unknown nvme rate v).1 _ (λ x.
        Keeps-set_calls shown (upd8_raw_and_h_and_time F no_critical_val unknown nvme rate v).0
          (update_views F no_critical_val unknown below_warn nvme rate vs
            (overall_of F no_critical_val unknown below_warn (below_warn x) before))
          (Keeps-update_views nvme rate vs
            (overall_of F no_critical_val unknown below_warn (below_warn x) before) shown))

  Keeps-next :
      (shown : OverallRating) (m : Option (List (UiCall F) × OverallRating))
      (k : OverallRating → Option (List (UiCall F) × OverallRating))
      → Keeps shown m
      → ((o : OverallRating) → Keeps shown (k o))
      → Keeps shown (m >>= λ s. k s.1 >>= λ t. some (s.0 ++ t.0, t.1))
  Keeps-next shown none k h g = tt
  Keeps-next shown (some (calls, o)) k h g = Keeps-behind shown calls (k o) h (g o)
    where
      Keeps-behind :
          (shown : OverallRating) (calls : List (UiCall F))
          (m : Option (List (UiCall F) × OverallRating))
          → last_shown shown calls ≡ shown
          → Keeps shown m
          → Keeps shown (m >>= λ t. some (calls ++ t.0, t.1))
      Keeps-behind shown calls none h g = tt
      Keeps-behind shown calls (some (more, o)) h g =
          last_shown-append shown calls more ∙ (ap (λ s. last_shown s more) h ∙ g)

  pub Keeps-update_carriers :
      (cs : List (CarrierView F)) (before shown : OverallRating)
      → Keeps shown (update_carriers F no_critical_val unknown below_warn cs before)
  unfolding update_carriers last_shown
  Keeps-update_carriers [] before shown = refl
  Keeps-update_carriers (c ∷ cs) before shown =
      Keeps-next shown
        (update_views F no_critical_val unknown below_warn c.nvme c.rate c.views before)
        (update_carriers F no_critical_val unknown below_warn cs)
        (Keeps-update_views c.nvme c.rate c.views before shown)
        (λ o. Keeps-update_carriers cs o shown)

  -- what an update shows at its end
  final_shown :
      (running : Bool) (status r : OverallRating)
      → last_shown status (
          (if running then val_upd8 ∷ [] else [])
          ++ (if differs status r then show_state r ∷ [] else []))
        ≡ r
  unfolding last_shown differs
  final_shown true overall_unknown overall_unknown = refl
  final_shown true overall_unknown at_least_1_warn = refl
  final_shown true at_least_1_warn overall_unknown = refl
  final_shown true at_least_1_warn at_least_1_warn = refl
  final_shown false overall_unknown overall_unknown = refl
  final_shown false overall_unknown at_least_1_warn = refl
  final_shown false at_least_1_warn overall_unknown = refl
  final_shown false at_least_1_warn at_least_1_warn = refl

  -- the calls and the stored rating of one update after another
  unfoldable pub run_updates :
      OverallRating → List (Bool × List (CarrierView F)) → Option (List (UiCall F) × OverallRating)
  run_updates status [] = some ([], status)
  run_updates status ((running, cs) ∷ more) =
      update_smart_values_ui F no_critical_val unknown below_warn running status cs >>= λ s.
      run_updates s.1 more >>= λ t. some (s.0 ++ t.0, t.1)

  update_shown :
      (running : Bool) (status : OverallRating) (cs : List (CarrierView F))
      → All (IsRatedCarrier F no_critical_val unknown below_warn) cs
      → (calls : List (UiCall F)) × (r : OverallRating) × (update_smart_values_ui F no_critical_val
            unknown below_warn running status cs
          ≡ some (calls, r))
        × (last_shown status calls ≡ r)
  unfolding update_smart_values_ui
  update_shown running status cs h =
      let (calls, q) =
        update_carriers_lem F no_critical_val unknown below_warn cs overall_unknown h in
      let r =
        overall_of F no_critical_val unknown below_warn
          (any_warns F no_critical_val unknown below_warn cs) overall_unknown in
      let k : Keeps status (some (calls, r)) =
        subst (Keeps status) q (Keeps-update_carriers cs overall_unknown status) in
      let end =
        (if running then val_upd8 ∷ [] else [])
        ++ (if differs status r then show_state r ∷ [] else []) in
      (
        calls ++ end,
        r,
        rw (q) refl,
        last_shown-append status calls end
            ∙ (ap (λ s. last_shown s end) k ∙ final_shown running status r),
      )

  -- Whatever the data carriers hold, update after update, as long as each attribute that was read has
  -- a consistent value and a time, the overall rating that the user interface was given last is the
  -- stored one, if this held before, and all updates return.
  pub shown_is_stored :
      (us : List (Bool × List (CarrierView F))) (status : OverallRating)
      → All (λ u. All (IsRatedCarrier F no_critical_val unknown below_warn) u.1) us
      → (calls : List (UiCall F)) × (r : OverallRating) × (run_updates status us ≡ some (calls, r))
        × (last_shown status calls ≡ r)
  unfolding run_updates
  shown_is_stored [] status h = ([], status, refl, unfold last_shown in refl)
  shown_is_stored ((running, cs) ∷ us) status (h, hs) =
      let (calls, r, e, l) = update_shown running status cs h in
      let (more, s, f, m) = shown_is_stored us r hs in
      (
        calls ++ more,
        s,
        rw (e, f) refl,
        last_shown-append status calls more ∙ (ap (λ x. last_shown x more) l ∙ m),
      )
