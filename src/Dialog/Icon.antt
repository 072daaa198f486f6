-- ===== src/Dialog/Icon.antt =====
-- The icon that is shown, update after update.
use smartmonitor.Common.{
  ◌≡◌, refl, sym, ap, ◌∙◌, Bool, true, false, ◌||◌, List, [], ◌∷◌, ◌++◌, some, if◌then◌else◌, All,
  subst, ◌≢◌,
}
use smartmonitor.ValueTable.{
  OverallRating, overall_unknown, at_least_1_warn, UiCall, set_attribute, val_upd8, show_state,
  CarrierView, differs, update_smart_values_ui,
}
use smartmonitor.ValueTable.Update.{IsRatedCarrier, any_warns, overall_of, update_carriers_lem}
use smartmonitor.ValueTable.History.{last_shown, Keeps, Keeps-update_carriers, run_updates}
use smartmonitor.Dialog.{rslt_of, ShownIcon, warning_icon, show_state_according_to_smart_values}

module _ (F : Type 0) (no_critical_val unknown : F) (below_warn : F → Bool) where
  -- the icon behind the calls of updates
  unfoldable pub icon_after : ShownIcon → List (UiCall F) → ShownIcon
  icon_after icon [] = icon
  icon_after icon (set_attribute c ∷ calls) = icon_after icon calls
  icon_after icon (val_upd8 ∷ calls) = icon_after icon calls
  icon_after icon (show_state r ∷ calls) =
      icon_after (show_state_according_to_smart_values (rslt_of r) icon) calls

  icon_after-append :
      (icon : ShownIcon) (xs ys : List (UiCall F))
      → icon_after icon (xs ++ ys) ≡ icon_after (icon_after icon xs) ys
  unfolding icon_after
  icon_after-append icon [] ys = refl
  icon_after-append icon (set_attribute c ∷ xs) ys = icon_after-append icon xs ys
  icon_after-append icon (val_upd8 ∷ xs) ys = icon_after-append icon xs ys
  icon_after-append icon (show_state r ∷ xs) ys =
      icon_after-append (show_state_according_to_smart_values (rslt_of r) icon) xs ys

  ratings_differ : overall_unknown ≢ at_least_1_warn
  ratings_differ e = cc

  -- Calls that give no rating leave the icon as it is.
  icon_kept :
      (icon : ShownIcon) (calls : List (UiCall F))
      → ((s : OverallRating) → last_shown F no_critical_val unknown below_warn s calls ≡ s)
      → icon_after icon calls ≡ icon
  unfolding icon_after last_shown
  icon_kept icon [] h = refl
  icon_kept icon (set_attribute c ∷ calls) h = icon_kept icon calls h
  icon_kept icon (val_upd8 ∷ calls) h = icon_kept icon calls h
  icon_kept icon (show_state r ∷ calls) h =
      absurd (ratings_differ (sym (h overall_unknown) ∙ h at_least_1_warn))

  -- a stored warning comes with its icon
  unfoldable pub FitsIcon : OverallRating → ShownIcon → Type 0
  FitsIcon overall_unknown icon = Unit
  FitsIcon at_least_1_warn icon = icon ≡ warning_icon

  unfoldable pub warned : Bool → ShownIcon → ShownIcon
  warned warns icon = if warns then warning_icon else icon

  -- what an update gives at its end
  end_icon :
      (running warns : Bool) (status : OverallRating) (icon : ShownIcon)
      → FitsIcon status icon
      → let r = overall_of F no_critical_val unknown below_warn warns overall_unknown in
        (icon_after icon (
            (if running then val_upd8 ∷ [] else [])
            ++ (if differs status r then show_state r ∷ [] else []))
          ≡ warned warns icon)
        × FitsIcon r (warned warns icon)
  unfolding icon_after differs warned FitsIcon show_state_according_to_smart_values rslt_of
  end_icon true true overall_unknown icon h = (refl, refl)
  end_icon true true at_least_1_warn icon h = (h, refl)
  end_icon true false overall_unknown icon h = (refl, tt)
  end_icon true false at_least_1_warn icon h = (refl, tt)
  end_icon false true overall_unknown icon h = (refl, refl)
  end_icon false true at_least_1_warn icon h = (h, refl)
  end_icon false false overall_unknown icon h = (refl, tt)
  end_icon false false at_least_1_warn icon h = (refl, tt)

  update_icon :
      (running : Bool) (status : OverallRating) (icon : ShownIcon) (cs : List (CarrierView F))
      → All (IsRatedCarrier F no_critical_val unknown below_warn) cs
      → FitsIcon status icon
      → let warns = any_warns F no_critical_val unknown below_warn cs in
        let r = overall_of F no_critical_val unknown below_warn warns overall_unknown in
        (calls : List (UiCall F)) × (update_smart_values_ui F no_critical_val unknown below_warn
            running status cs
          ≡ some (calls, r))
        × (icon_after icon calls ≡ warned warns icon)
        × FitsIcon r (warned warns icon)
  unfolding update_smart_values_ui
  update_icon running status icon cs h f =
      let warns = any_warns F no_critical_val unknown below_warn cs in
      let r = overall_of F no_critical_val unknown below_warn warns overall_unknown in
      let (calls, q) =
        update_carriers_lem F no_critical_val unknown below_warn cs overall_unknown h in
      let k : (s : OverallRating) → last_shown F no_critical_val unknown below_warn s calls ≡ s =
        λ s.
          subst (Keeps F no_critical_val unknown below_warn s) q
            (Keeps-update_carriers F no_critical_val unknown below_warn cs overall_unknown s) in
      let end =
        (if running then val_upd8 ∷ [] else [])
        ++ (if differs status r then show_state r ∷ [] else []) in
      (
        calls ++ end,
        rw (q) refl,
        icon_after-append icon calls end
            ∙ (ap (λ i. icon_after i end) (icon_kept icon calls k)
                ∙ (end_icon running warns status icon f).0),
        (end_icon running warns status icon f).1,
      )

  -- whether some update meets a warning
  unfoldable pub some_warns : List (Bool × List (CarrierView F)) → Bool
  some_warns [] = false
  some_warns (u ∷ us) = any_warns F no_critical_val unknown below_warn u.1 || some_warns us

  warned_or : (a b : Bool) (icon : ShownIcon) → warned b (warned a icon) ≡ warned (a || b) icon
  unfolding warned
  warned_or true true icon = refl
  warned_or true false icon = refl
  warned_or false b icon = refl

  -- As long as each attribute that was read has a consistent value and a time: the icon of the window
  -- becomes the one for a warning with the first update that meets a warning and stays it, whatever
  -- the later updates meet; without a warning it stays as it was.
  pub warning_stays :
      (us : List (Bool × List (CarrierView F))) (status : OverallRating) (icon : ShownIcon)
      → All (λ u. All (IsRatedCarrier F no_critical_val unknown below_warn) u.1) us
      → FitsIcon status icon
      → (calls : List (UiCall F)) × (r : OverallRating) × (run_updates F no_critical_val unknown
            below_warn status us
          ≡ some (calls, r))
        × (icon_after icon calls ≡ (if some_warns us then warning_icon else icon))
  unfolding run_updates some_warns warned
  warning_stays [] status icon h f = ([], status, refl, unfold icon_after in refl)
  warning_stays ((running, cs) ∷ us) status icon (h, hs) f =
      let warns = any_warns F no_critical_val unknown below_warn cs in
      let (calls, e, i, g) = update_icon running status icon cs h f in
      let (more, s, k, j) = warning_stays us _ (warned warns icon) hs g in
      (
        calls ++ more,
        s,
        rw (e, k) refl,
        icon_after-append icon calls more
            ∙ (ap (λ x. icon_after x more) i ∙ (j ∙ warned_or warns (some_warns us) icon)),
      )
