-- ===== src/CommandLine/Usage.antt =====
-- When the usage is shown.
use smartmonitor.Common.{
  ℕ, ◌≡◌, refl, Bool, true, false, not, ◌&&◌, ◌||◌, List, [], ◌∷◌, arith, Bytes, codes,
}
use smartmonitor.Common.Texts.{same, same→eq}
use smartmonitor.CommandLine.{
  Settings, Output, unknown_command_line_option, not_a_valid_log_level, usage, help, process_option,
  handle_log_file_folder, after_loop, fresh,
}
use smartmonitor.CommandLine.Styles.{Given, joined, parted, take_given, take_all_given}

-- whether the usage is among the output
unfoldable pub shows_usage : List Output → Bool
shows_usage [] = false
shows_usage (unknown_command_line_option n ∷ os) = shows_usage os
shows_usage (not_a_valid_log_level v ∷ os) = shows_usage os
shows_usage (usage ∷ os) = true

svc_not_level :
    (n : Bytes) → same n (codes "svcConnConfFile") ≡ true → same n (codes "loglevel") ≡ false
unfolding same
svc_not_level n h = rw (same→eq n (codes "svcConnConfFile") h) refl

folder_not_level :
    (n : Bytes) → same n (codes "logfilefolder") ≡ true → same n (codes "loglevel") ≡ false
unfolding same
folder_not_level n h = rw (same→eq n (codes "logfilefolder") h) refl

module _ (narrow : Bytes → Bytes) (is_level : Bytes → Bool) (sep : ℕ) (prog_path : Bytes) where
  -- A name that asks for help, an option without a value, or an unknown level.
  unfoldable pub asks_for_usage : Bytes → Bytes → Bool
  asks_for_usage n v =
      same n help || same v [] || (same n (codes "loglevel") && not (is_level (narrow v)))

  unfoldable pub any_asks : List Given → Bool
  any_asks [] = false
  any_asks (joined n v ∷ gs) = asks_for_usage n v || any_asks gs
  any_asks (parted n v ∷ gs) = asks_for_usage n v || any_asks gs

  abbrev pending : Settings → Bool
  pending st = st.show_usage || st.at_least_1_unknown

  pending-process_option :
      (st : Settings) (n v : Bytes)
      → pending (process_option narrow is_level sep prog_path st n v)
        ≡ (pending st || asks_for_usage n v)
  unfolding process_option asks_for_usage handle_log_file_folder
  pending-process_option st n v = ground (arith, svc_not_level n, folder_not_level n)

  shows_usage-process_option :
      (st : Settings) (n v : Bytes)
      → shows_usage (process_option narrow is_level sep prog_path st n v).output
        ≡ shows_usage st.output
  unfolding process_option shows_usage handle_log_file_folder
  shows_usage-process_option st n v = ground arith

  taken_lem :
      (gs : List Given) (st : Settings)
      → let end : Settings = take_all_given narrow is_level sep prog_path st gs in
        (pending end ≡ (pending st || any_asks gs))
        × (shows_usage end.output ≡ shows_usage st.output)
  unfolding take_all_given any_asks
  taken_lem [] st = ground arith
  taken_lem (joined n v ∷ gs) st = ground (
    arith,
    taken_lem gs (take_given narrow is_level sep prog_path st (joined n v)),
    pending-process_option st n v,
    shows_usage-process_option st n v,
  )
  taken_lem (parted n v ∷ gs) st = ground (
    arith,
    taken_lem gs (take_given narrow is_level sep prog_path st (parted n v)),
    pending-process_option st n v,
    shows_usage-process_option st n v,
  )

  -- Behind the options the usage is shown exactly if one of them asked for help, had an empty value or
  -- gave a level that the logger does not know (or if it was shown before). An unknown option that is
  -- given as name=value does not bring it up.
  pub usage_shown_iff :
      (first_idx count : ℕ) (argument : ℕ → Bytes) (gs : List Given) (st : Settings)
      → shows_usage
          (after_loop narrow is_level sep prog_path first_idx count argument
            (take_all_given narrow is_level sep prog_path (fresh st) gs)).output
        ≡ (any_asks gs || shows_usage st.output)
  unfolding after_loop shows_usage fresh
  usage_shown_iff first_idx count argument gs st = ground (arith, taken_lem gs (fresh st))
