-- ===== src/CommandLine/Styles.antt =====
-- Both ways of giving an option, and the end of the loop over the arguments.
use smartmonitor.Common.{
  ℕ, zero, suc, ◌+◌, ◌≤◌, ◌<◌, ◌≡◌, ◌≢◌, refl, Bool, true, false, List, [], ◌∷◌, ◌++◌, some, none,
  arith, ltb, lt→ltb, ltb→lt, ltb→ge, sym, ap, ◌∙◌, inl, inr, Option, Bool-cases, Bytes, length,
  get_elem?, All,
}
use smartmonitor.Common.Texts.{same, is_among, split_first-append, split_first-none}
use smartmonitor.CommandLine.{
  Settings, help, command_line_options, process_option, get_command_option_value,
  get_cmd_line_option_name_and_value, process_from, after_loop, process_command_line_args, fresh,
}

-- An option that a user gives.
pub data Given : Type 0 where
  -- one argument, name=value
  joined : Bytes → Bytes → Given
  -- two arguments, name and value
  parted : Bytes → Bytes → Given

abbrev pub arguments : List Given → List Bytes
arguments [] = []
arguments (joined n v ∷ gs) = (n ++ b'=' ∷ v) ∷ arguments gs
arguments (parted n v ∷ gs) = n ∷ v ∷ arguments gs

module _ (narrow : Bytes → Bytes) (is_level : Bytes → Bool) (sep : ℕ) (prog_path : Bytes) where
  -- A name has no equals sign in it. Without an equals sign behind it, it is one of the options.
  abbrev pub IsProper : Given → Type 0
  IsProper (joined n v) = All (λ c. c ≢ b'=') n
  IsProper (parted n v) =
      All (λ c. c ≢ b'=') n
      × ((is_among (narrow n) command_line_options ≡ true) × (same n help ≡ false))

  abbrev pub take_given : Settings → Given → Settings
  take_given st (joined n v) = process_option narrow is_level sep prog_path st n v
  take_given st (parted n v) = process_option narrow is_level sep prog_path st n v

  -- the options taken one after another
  unfoldable pub take_all_given : Settings → List Given → Settings
  take_all_given st [] = st
  take_all_given st (g ∷ gs) = take_all_given (take_given st g) gs

  module _ (first_idx : ℕ) (count : ℕ) (argument : ℕ → Bytes) where
    -- From number `i` on the arguments are these.
    abbrev pub Shows : ℕ → List Bytes → Type 0
    Shows i xs = (j : ℕ) (a : Bytes) → get_elem? xs j ≡ some a → argument (i + j) ≡ a

    Shows-tail : (i : ℕ) (x : Bytes) (xs : List Bytes) → Shows i (x ∷ xs) → Shows (i + 1) xs
    Shows-tail i x xs h = λ j a e.
        let q : argument (i + suc j) ≡ a = h (suc j) a e in
        let s : i + suc j ≡ i + 1 + j = omega arith in rw (← s) q

    Shows-head : (i : ℕ) (x : Bytes) (xs : List Bytes) → Shows i (x ∷ xs) → argument i ≡ x
    Shows-head i x xs h =
        let q : argument (i + 0) ≡ x = h 0 x refl in let s : i + 0 ≡ i = omega arith in rw (← s) q

    joined_lem :
        (i : ℕ) (value n v : Bytes)
        → All (λ c. c ≢ b'=') n
        → argument i ≡ (n ++ b'=' ∷ v)
        → get_cmd_line_option_name_and_value narrow is_level sep prog_path first_idx count argument
            i value
          ≡ (i + 1, (n, v))
    unfolding get_cmd_line_option_name_and_value
    joined_lem i value n v h e =
        rw (get_cmd_line_option_name_and_value, e, split_first-append b'=' n v h) refl

    parted_lem :
        (i : ℕ) (value n v : Bytes)
        → IsProper (parted n v)
        → argument i ≡ n
        → argument (i + 1) ≡ v
        → get_cmd_line_option_name_and_value narrow is_level sep prog_path first_idx count argument
            i value
          ≡ (i + 2, (n, v))
    unfolding get_cmd_line_option_name_and_value get_command_option_value
    parted_lem i value n v (h, (k, l)) e f =
        rw
          (
            get_cmd_line_option_name_and_value,
            e,
            split_first-none b'=' n h,
            e,
            l,
            get_command_option_value,
            k,
            f,
          )
          refl

    process_end :
        (fuel i : ℕ) (value : Bytes) (st : Settings)
        → count ≤ i
        → process_from narrow is_level sep prog_path first_idx count argument (suc fuel) i value st
          ≡ some st
    unfolding process_from
    process_end fuel i value st h = ground arith

    -- one round of the loop, once name and value are known
    abbrev go_on : ℕ → Settings → ℕ × (Bytes × Bytes) → Option Settings
    go_on fuel st r =
        process_from narrow is_level sep prog_path first_idx count argument fuel r.0 r.1.1
          (process_option narrow is_level sep prog_path st r.1.0 r.1.1)

    process_round :
        (fuel i : ℕ) (value : Bytes) (st : Settings)
        → i < count
        → process_from narrow is_level sep prog_path first_idx count argument (suc fuel) i value st
          ≡ go_on fuel st (
              get_cmd_line_option_name_and_value narrow is_level sep prog_path first_idx count
                argument i value)
    unfolding process_from
    process_round fuel i value st h = ground arith

    process_step :
        (fuel i next : ℕ) (value n v : Bytes) (st : Settings)
        → i < count
        → get_cmd_line_option_name_and_value narrow is_level sep prog_path first_idx count argument
            i value
          ≡ (next, (n, v))
        → process_from narrow is_level sep prog_path first_idx count argument (suc fuel) i value st
          ≡ process_from narrow is_level sep prog_path first_idx count argument fuel next v
              (process_option narrow is_level sep prog_path st n v)
    process_step fuel i next value n v st h e =
        process_round fuel i value st h ∙ ap (go_on fuel st) e

    process_from_given :
        (gs : List Given) (fuel i : ℕ) (value : Bytes) (st : Settings)
        → All IsProper gs
        → Shows i (arguments gs)
        → i + length (arguments gs) ≡ count
        → length (arguments gs) < fuel
        → process_from narrow is_level sep prog_path first_idx count argument fuel i value st
          ≡ some (take_all_given st gs)
    process_from_given gs zero i value st p s e k = absurd (omega arith)
    process_from_given [] (suc fuel) i value st p s e k =
        process_end fuel i value st (omega arith) ∙ sym (unfold take_all_given in refl)
    process_from_given (joined n v ∷ gs) (suc fuel) i value st (p, ps) s e k =
        rw
          (
            process_step fuel i (i + 1) value n v st (omega arith)
                (joined_lem i value n v p (Shows-head i (n ++ b'=' ∷ v) (arguments gs) s)),
            process_from_given gs fuel (i + 1) v (take_given st (joined n v)) ps
                (Shows-tail i (n ++ b'=' ∷ v) (arguments gs) s) (omega arith) (omega arith),
          )
          (unfold take_all_given in refl)
    process_from_given (parted n v ∷ gs) (suc fuel) i value st (p, ps) s e k =
        rw
          (
            process_step fuel i (i + 2) value n v st (omega arith)
                (parted_lem i value n v p (Shows-head i n (v ∷ arguments gs) s) (s 1 v refl)),
            process_from_given gs fuel (i + 2) v (take_given st (parted n v)) ps
                (λ j a q.
                  let r : argument (i + suc (suc j)) ≡ a = s (suc (suc j)) a q in
                  let t : i + suc (suc j) ≡ i + 2 + j = omega arith in rw (← t) r)
                (omega arith) (omega arith),
          )
          (unfold take_all_given in refl)

    -- Options given as name=value or as two arguments, in any mixture, are processed one after another,
    -- each with just its name and value, whatever the equals signs in the values; the function returns.
    pub options_processed :
        (gs : List Given) (st : Settings)
        → 1 < count
        → All IsProper gs
        → Shows first_idx (arguments gs)
        → first_idx + length (arguments gs) ≡ count
        → process_command_line_args narrow is_level sep prog_path first_idx count argument st
          ≡ some (
              after_loop narrow is_level sep prog_path first_idx count argument
                (take_all_given (fresh st) gs))
    unfolding process_command_line_args
    options_processed gs st h p s e =
        rw
          (
            lt→ltb 1 count h,
            process_from_given gs (suc count) first_idx [] (fresh st) p s e (omega arith),
          )
          refl

    next_bound :
        (i : ℕ) (value : Bytes)
        → i
          < (get_cmd_line_option_name_and_value narrow is_level sep prog_path first_idx count
              argument i value).0
    unfolding get_cmd_line_option_name_and_value
    next_bound i value = ground arith

    process_from_ends :
        (fuel i : ℕ) (value : Bytes) (st : Settings)
        → 1 ≤ fuel
        → count < i + fuel
        → process_from narrow is_level sep prog_path first_idx count argument fuel i value st ≢ none
    unfolding process_from
    process_from_ends zero i value st k h = absurd (omega arith)
    process_from_ends (suc fuel) i value st k h = elim (Bool-cases (ltb i count)) [
      | inl e ↦ rw (process_round fuel i value st (ltb→lt i count e)) (
          process_from_ends fuel _ _ _ (omega (arith, ltb→lt i count e))
            (omega (arith, next_bound i value)))
      | inr e ↦ rw (process_end fuel i value st (ltb→ge i count e)) (λ q. cc)
    ]

    -- Whatever the arguments are, the loop over them ends and the function returns.
    pub command_line_ends :
        (st : Settings)
        → process_command_line_args narrow is_level sep prog_path first_idx count argument st ≢ none
    unfolding process_command_line_args
    command_line_ends st =
        ground
          (arith, process_from_ends (suc count) first_idx [] (fresh st) (omega arith) (omega arith))
