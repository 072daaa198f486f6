-- ===== src/Access/Drives.antt =====
-- The loop over the device files and the code that it returns.
use mathlib.Core.Path.{subst}
use smartmonitor.Common.{
  Bool-cases, ◌≡◌, ◌≢◌, ◌⊎◌, inl, inr, refl, sym, ap, ◌∙◌, false, List, [], ◌∷◌, ◌++◌, append_assoc,
  append-nil, ◌==◌, if◌then◌else◌, Bytes, All, length, arith,
}
use smartmonitor.Access.{
  RetCode, success, access_denied, no_single_smart_device, got_smart_attribute_value, unset,
  get_bus_typ_faild, other_error, overall, on_name, for_names, read_smart_values_for_all_drives,
}

-- Every name with a tab behind it.
unfoldable pub tabbed : List Bytes → Bytes
tabbed [] = []
tabbed (n ∷ ns) = n ++ b'\t' ∷ tabbed ns

abbrev pub IsName : Bytes → Type 0
IsName = All (λ c. c ≢ b'\t')

-- The codes that a device says something by.
abbrev pub IsDecisive : RetCode → Type 0
IsDecisive c = (c ≡ success) ⊎ (c ≡ access_denied)

-- The code after the codes of all devices.
unfoldable pub last_decisive : List RetCode → RetCode → RetCode
last_decisive [] code = code
last_decisive (c ∷ cs) code = last_decisive cs (overall code c)

module _ (World : Type 0) (read_device : World → Bytes → World × RetCode) where
  -- The names of three characters in their order: the world afterwards and the codes.
  unfoldable pub read_names : List Bytes → World → World × List RetCode
  read_names [] w = (w, [])
  read_names (n ∷ ns) w =
      let (v, c) = read_device w n in
      let read = read_names ns v in
      let skip = read_names ns w in if length n == 3 then (read.0, c ∷ read.1) else skip

  scan-name :
      (n rest cur : Bytes) (w : World) (code : RetCode)
      → IsName n
      → for_names World read_device (n ++ b'\t' ∷ rest) cur w code ≡ (
          let r = on_name World read_device (cur ++ n) w code in
          for_names World read_device rest [] r.0 r.1)
  unfolding for_names
  scan-name [] rest cur w code h = rw (append-nil cur) refl
  scan-name (c ∷ n) rest cur w code (h, hs) =
      let b : (c == b'\t') ≡ false = ground (arith, h) in
      rw (for_names, b)
        (scan-name n rest (cur ++ (c ∷ [])) w code hs
          ∙ ap
              (λ m.
                for_names World read_device rest [] (on_name World read_device m w code).0
                  (on_name World read_device m w code).1)
              (append_assoc cur (c ∷ []) n))

  names_lem :
      (ns : List Bytes) (w : World) (code : RetCode)
      → All IsName ns
      → for_names World read_device (tabbed ns) [] w code
        ≡ ((read_names ns w).0, last_decisive (read_names ns w).1 code)
  unfolding tabbed read_names last_decisive for_names on_name
  names_lem [] w code h = refl
  names_lem (n ∷ ns) w code (h, hs) = elim (Bool-cases (length n == 3)) [
    | inl q ↦
        scan-name n (tabbed ns) [] w code h
        ∙ rw q (names_lem ns (read_device w n).0 (overall code (read_device w n).1) hs)
    | inr q ↦ scan-name n (tabbed ns) [] w code h ∙ rw q (names_lem ns w code hs)
  ]

-- What a code is worth after the codes of the devices.
unfoldable pub Decides : List RetCode → RetCode → RetCode → Type 0
Decides codes before code =
    (All (λ c. ¬ IsDecisive c) codes × (code ≡ before))
    ⊎ ((pre : List RetCode) × (post : List RetCode) × (codes ≡ pre ++ code ∷ post)
        × IsDecisive code
        × All (λ c. ¬ IsDecisive c) post)

overall-cases :
    (before c : RetCode)
    → (IsDecisive c × (overall before c ≡ c)) ⊎ ((¬ IsDecisive c) × (overall before c ≡ before))
unfolding overall
overall-cases before success = inl (inl refl, refl)
overall-cases before access_denied = inl (inr refl, refl)
overall-cases before no_single_smart_device = inr (ground arith, refl)
overall-cases before got_smart_attribute_value = inr (ground arith, refl)
overall-cases before unset = inr (ground arith, refl)
overall-cases before get_bus_typ_faild = inr (ground arith, refl)
overall-cases before other_error = inr (ground arith, refl)

last_decisive-Decides :
    (codes : List RetCode) (before : RetCode) → Decides codes before (last_decisive codes before)
unfolding Decides last_decisive
last_decisive-Decides [] before = inl (tt, refl)
last_decisive-Decides (c ∷ codes) before = elim (last_decisive-Decides codes (overall before c)) [
  | inr (pre, post, e, d, a) ↦ inr (c ∷ pre, post, ap (λ l. c ∷ l) e, d, a)
  | inl (a, e) ↦ elim (overall-cases before c) [
    | inl (d, o) ↦
        let r : c ≡ last_decisive codes (overall before c) = sym (e ∙ o) in
        inr ([], codes, ap (λ x. x ∷ codes) r, subst IsDecisive r d, a)
    | inr (d, o) ↦ inl ((d, a), e ∙ o)
  ]
]

module _ (World : Type 0) (read_device : World → Bytes → World × RetCode) where
  -- From the names of the block devices, exactly those of three characters are read, in their order,
  -- also those with a decimal digit like `sr0`: the test for digits has no effect.
  -- The result is the last success or denied access among their codes, or "no device" without any.
  pub read_drives_outcome :
      (names : List Bytes) (w : World)
      → All IsName names
      → let r = read_smart_values_for_all_drives World read_device (tabbed names) w in
        let (v, codes) = read_names World read_device names w in
        (r.0 ≡ v) × Decides codes no_single_smart_device r.1
  unfolding read_smart_values_for_all_drives
  read_drives_outcome names w h =
      let e = names_lem World read_device names w no_single_smart_device h in
      (
        ap (λ r. r.0) e,
        subst (Decides (read_names World read_device names w).1 no_single_smart_device)
            (sym (ap (λ r. r.1) e))
            (last_decisive-Decides (read_names World read_device names w).1 no_single_smart_device),
      )
