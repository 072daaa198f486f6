-- ===== src/CfgLoader/Carriers.antt =====
-- Which definition of a data carrier is found.
use Prim.Native.Nat.{Ordering}
use smartmonitor.Common.{
  ℕ, zero, suc, ◌<◌, ◌≡◌, ◌≢◌, ◌⊎◌, refl, Bool, true, false, ◌&&◌, List, [], ◌∷◌, ◌++◌, Option,
  none, some, arith, lt→ltb, ◌==◌, if◌then◌else◌, ◌>>=◌, Bytes, length, set, length-set, All,
  replicate, Bool-cases, Option-cases, inl, inr, ap, sym, subst, ◌∙◌,
}
use smartmonitor.Common.Texts.{same, same_refl, same→eq}
use smartmonitor.CfgLoader.{
  CarrierElement, ModelAndFirmware, set_param_units, model_less, same_key, find, insert_model,
  get_data_carrier_attr_defs, model_of, read_smart_data_carrier_defs,
}

-- What is used of `strcmp`: 0 just for equal strings, and the sign turns round with the arguments.
pub record StrcmpLaws (strcmp_sign : Bytes → Bytes → Ordering) : Type 0 where
  pub equal : (s t : Bytes) → strcmp_sign s t ≡ Ordering.eq → s ≡ t
  pub self : (s : Bytes) → strcmp_sign s s ≡ Ordering.eq
  pub flip : (s t : Bytes) → strcmp_sign s t ≡ Ordering.lt → strcmp_sign t s ≡ Ordering.gt
  pub flip_back : (s t : Bytes) → strcmp_sign s t ≡ Ordering.gt → strcmp_sign t s ≡ Ordering.lt

-- both names agree
abbrev pub has_names : ModelAndFirmware → Bytes → Bytes → Bool
has_names m model firmware = same m.model_name model && same m.firm_ware_name firmware

module _ (strcmp_sign : Bytes → Bytes → Ordering) (laws : StrcmpLaws strcmp_sign) where
  -- Both signs of a comparison, with what `==` says.
  abbrev Signs : Bytes → Bytes → Type 0
  Signs s t =
      ((same s t ≡ true) × (strcmp_sign s t ≡ Ordering.eq) × (strcmp_sign t s ≡ Ordering.eq))
      ⊎ (((same s t ≡ false) × (strcmp_sign s t ≡ Ordering.lt) × (strcmp_sign t s ≡ Ordering.gt))
          ⊎ ((same s t ≡ false)
              × (strcmp_sign s t ≡ Ordering.gt)
              × (strcmp_sign t s ≡ Ordering.lt)))

  not_same : (s t : Bytes) → strcmp_sign s t ≢ Ordering.eq → same s t ≡ false
  not_same s t h = elim (Bool-cases (same s t)) [
    | inl e ↦ absurd (h (subst (λ u. strcmp_sign s u ≡ Ordering.eq) (same→eq s t e) (laws.self s)))
    | inr e ↦ e
  ]

  Signs-cases : (s t : Bytes) (r : Ordering) → strcmp_sign s t ≡ r → Signs s t
  Signs-cases s t Ordering.lt e = inr (inl (not_same s t (λ q. cc), e, laws.flip s t e))
  Signs-cases s t Ordering.eq e = inl (
    subst (λ u. same s u ≡ true) (laws.equal s t e) (same_refl s),
    e,
    subst (λ u. strcmp_sign u s ≡ Ordering.eq) (laws.equal s t e) (laws.self s),
  )
  Signs-cases s t Ordering.gt e = inr (inr (not_same s t (λ q. cc), e, laws.flip_back s t e))

  same_key_lem :
      (a b : ModelAndFirmware)
      → same_key strcmp_sign a b ≡ has_names a b.model_name b.firm_ware_name
  unfolding same_key model_less
  same_key_lem a b = ground (
    arith,
    Signs-cases a.model_name b.model_name (strcmp_sign a.model_name b.model_name) refl,
    Signs-cases a.firm_ware_name b.firm_ware_name (strcmp_sign a.firm_ware_name b.firm_ware_name)
        refl,
  )

  -- the first of some with both names
  unfoldable pub first_with : List ModelAndFirmware → Bytes → Bytes → Option ModelAndFirmware
  first_with [] model firmware = none
  first_with (m ∷ ms) model firmware =
      let rest = first_with ms model firmware in if has_names m model firmware then some m else rest

  find_lem :
      (ms : List ModelAndFirmware) (key : ModelAndFirmware)
      → find strcmp_sign ms key ≡ first_with ms key.model_name key.firm_ware_name
  unfolding find first_with
  find_lem [] key = refl
  find_lem (m ∷ ms) key = ground (arith, same_key_lem m key, find_lem ms key)

  abbrev or_else : Option ModelAndFirmware → Option ModelAndFirmware → Option ModelAndFirmware
  or_else none b = b
  or_else (some a) b = some a

  first_with-append :
      (xs ys : List ModelAndFirmware) (a b : Bytes)
      → first_with (xs ++ ys) a b ≡ or_else (first_with xs a b) (first_with ys a b)
  unfolding first_with
  first_with-append [] ys a b = refl
  first_with-append (x ∷ xs) ys a b = ground (arith, first_with-append xs ys a b)

  -- A later object with the names of an earlier one is never found.
  shadowed :
      (ms : List ModelAndFirmware) (m x : ModelAndFirmware) (a b : Bytes)
      → first_with ms m.model_name m.firm_ware_name ≡ some x
      → or_else (first_with ms a b) (first_with (m ∷ []) a b) ≡ first_with ms a b
  unfolding first_with
  shadowed ms m x a b e = ground (arith, same→eq m.model_name a, same→eq m.firm_ware_name b)

  insert_first :
      (ms : List ModelAndFirmware) (m : ModelAndFirmware) (a b : Bytes)
      → first_with (insert_model strcmp_sign ms m) a b
        ≡ or_else (first_with ms a b) (first_with (m ∷ []) a b)
  unfolding insert_model
  insert_first ms m a b = elim (Option-cases (find strcmp_sign ms m)) [
    | inl e ↦ rw (insert_model, e) (first_with-append ms (m ∷ []) a b)
    | inr (x, e) ↦ rw (insert_model, e) (sym (shadowed ms m x a b (sym (find_lem ms m) ∙ e)))
  ]

  module _ (num_units : ℕ) where
    -- The IDs of the units lie in the array of the class.
    abbrev pub HasRoom : CarrierElement → Type 0
    HasRoom e = All (λ p. p.0 < num_units) e.params

    units_lem :
        (params : List (ℕ × Option Bytes)) (units : List Bytes)
        → All (λ p. p.0 < length units) params
        → (later : List Bytes) × (set_param_units params units ≡ some later)
    unfolding set_param_units
    units_lem [] units h = (units, refl)
    units_lem ((id, none) ∷ params) units (h, hs) = units_lem params units hs
    units_lem ((id, some unit) ∷ params) units (h, hs) = elim (Bool-cases (id == 0)) [
      | inl e ↦ rw (e) (units_lem params units hs)
      | inr e ↦
          rw (e, lt→ltb id (length units) h)
            (units_lem params (set units id unit)
              (subst (λ n. All (λ p. p.0 < n) params) (sym (length-set units id unit)) hs))
    ]

    length-units : (n : ℕ) → length {A = Bytes} (replicate n []) ≡ n
    length-units zero = refl
    length-units (suc n) = ap suc (length-units n)

    model_lem :
        (model firmware : Bytes) (e : CarrierElement)
        → HasRoom e
        → (m : ModelAndFirmware) × (model_of strcmp_sign num_units model firmware e ≡ some m)
    unfolding model_of
    model_lem model firmware e h =
        let (units, q) =
          units_lem e.params (replicate num_units [])
            (subst (λ n. All (λ p. p.0 < n) e.params) (sym (length-units num_units)) h) in
        (
          record {
            model_name = model;
            firm_ware_name = firmware;
            max_tera = elim (e.max_tera_bytes_written) [ none ↦ 0 | some n ↦ n ];
            smart_param_unit = units;
          },
          rw (q) refl,
        )

    -- the objects of the elements that have both names, in their order
    unfoldable pub models_of : List CarrierElement → Option (List ModelAndFirmware)
    models_of [] = some []
    models_of (e ∷ es) = elim (e.model) [
      | none ↦ models_of es
      | some model ↦ elim (e.firmware) [
        | none ↦ models_of es
        | some firmware ↦ model_of strcmp_sign num_units model firmware e >>= λ m.
            models_of es >>= λ ms. some (m ∷ ms)
      ]
    ]

    abbrev Stored :
        List ModelAndFirmware
        → Option (List ModelAndFirmware)
        → Option (List ModelAndFirmware)
        → Type 0
    Stored before objects stored =
        (os : List ModelAndFirmware) × (ms : List ModelAndFirmware) × (objects ≡ some os)
        × (stored ≡ some ms)
        × ((a b : Bytes) → first_with ms a b ≡ or_else (first_with before a b) (first_with os a b))

    store_more :
        (before : List ModelAndFirmware) (m : ModelAndFirmware)
        (objects stored : Option (List ModelAndFirmware))
        → Stored (insert_model strcmp_sign before m) objects stored
        → Stored before (objects >>= λ ms. some (m ∷ ms)) stored
    unfolding first_with
    store_more before m objects stored (os, ms, p, q, r) =
        (m ∷ os, ms, rw (p) refl, q, λ a b. ground (arith, r a b, insert_first before m a b))

    stored_lem :
        (es : List CarrierElement) (before : List ModelAndFirmware)
        → All HasRoom es
        → Stored before
            (models_of es)
            (read_smart_data_carrier_defs strcmp_sign num_units es before)
    unfolding models_of read_smart_data_carrier_defs first_with
    stored_lem [] before h = ([], before, refl, refl, λ a b. ground arith)
    stored_lem (e ∷ es) before (h, hs) = elim (Option-cases e.model) [
      | inl p ↦ rw (p) (stored_lem es before hs)
      | inr (model, p) ↦ elim (Option-cases e.firmware) [
        | inl q ↦ rw (p, q) (stored_lem es before hs)
        | inr (firmware, q) ↦
            let (m, r) = model_lem model firmware e h in
            rw (p, q, r)
              (store_more before m _ _ (stored_lem es (insert_model strcmp_sign before m) hs))
      ]
    ]

    -- A file of data carriers whose unit IDs lie in the array is read, and for each model and firmware
    -- the definition found afterwards is that of the first element that has both names, or none.
    pub first_definition_wins :
        (es : List CarrierElement)
        → All HasRoom es
        → (os : List ModelAndFirmware) × (ms : List ModelAndFirmware) × (models_of es ≡ some os)
          × (read_smart_data_carrier_defs strcmp_sign num_units es [] ≡ some ms)
          × ((model firmware : Bytes)
              → get_data_carrier_attr_defs strcmp_sign ms model firmware
                ≡ first_with os model firmware)
    unfolding get_data_carrier_attr_defs
    first_definition_wins es h =
        let (os, ms, p, q, r) = stored_lem es [] h in
        (
          os,
          ms,
          p,
          q,
          λ model firmware. find_lem ms _ ∙ (r model firmware ∙ (unfold first_with in refl)),
        )
