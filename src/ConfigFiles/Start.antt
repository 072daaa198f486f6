-- ===== src/ConfigFiles/Start.antt =====
-- The start loads the files in their order and stops at the first that cannot be loaded.
use smartmonitor.Common.{
  ℕ, ◌≡◌, ◌≢◌, refl, ap, ◌∙◌, Bool, true, false, not, ◌&&◌, ◌||◌, List, [], ◌∷◌, Bytes, codes,
  arith,
}
use smartmonitor.Common.Texts.{same}
use smartmonitor.ConfigFiles.{
  LoadResult, loaded, not_loaded, parse_exception, Tried, found, missing, raised, AccessCode,
  InitSmartRetCode, reading_config_file_failed, rethrown, Loader, first_path, second_path,
  try_second, try_cfg_file_paths, read_values, or_fail, initialize_smart,
}

abbrev pub is_loaded : LoadResult → Bool
is_loaded loaded = true
is_loaded (not_loaded _) = false
is_loaded parse_exception = false

abbrev pub is_missing : LoadResult → Bool
is_missing loaded = false
is_missing (not_loaded _) = true
is_missing parse_exception = false

abbrev pub is_found : Tried → Bool
is_found found = true
is_found (missing _) = false
is_found raised = false

module _ (World : Type 0) (sep : ℕ) (cwd resources option_value : Bytes) where
  -- the loaders with the names of their files
  abbrev pub CfgFile : Type 0
  CfgFile = Loader World sep cwd resources option_value × Bytes

  abbrev pub try_file : CfgFile → World → World × Tried
  try_file f = try_cfg_file_paths World sep cwd resources option_value f.0 f.1

  -- A file is found in the first place, or else, if the first place is not the working directory, in
  -- the second, from the state that the first attempt left.
  pub found_iff :
      (load : Loader World sep cwd resources option_value) (name : Bytes) (w : World)
      → let first : World × LoadResult =
          load w (first_path World sep cwd resources option_value name) in
        let second : World × LoadResult =
          load first.0 (second_path World sep cwd resources option_value name) in
        is_found (try_file (load, name) w).1 ≡ (
          is_loaded first.1
          || (is_missing first.1 && (not (same resources []) && is_loaded second.1)))
  unfolding try_cfg_file_paths try_second
  found_iff load name w = ground arith

  -- How far the loading of files gets, and how it ends.
  pub data Loading : List CfgFile → World → World → Tried → Type 0 where
    done : {w : World} → Loading [] w w found
    next :
        {f : CfgFile} {fs : List CfgFile} {w v u : World} {t : Tried}
        → try_file f w ≡ (v, found)
        → Loading fs v u t
        → Loading (f ∷ fs) w u t
    stops :
        {f : CfgFile} {fs : List CfgFile} {w v : World} {t : Tried}
        → t ≢ found
        → try_file f w ≡ (v, t)
        → Loading (f ∷ fs) w v t

  module _
      (read_attr_defs read_nvme_attr_defs read_carrier_defs read_srv_cnnctn : Loader World sep cwd
        resources option_value)
      (read_all_drives : World → World × AccessCode) where
    abbrev pub cfg_files : List CfgFile
    cfg_files =
        (read_attr_defs, codes "en/SMARTattrDefs.")
        ∷ (read_nvme_attr_defs, codes "en/NVMeSMARTattrDefs.")
        ∷ (read_carrier_defs, codes "dataCarrierDefs.")
        ∷ (read_srv_cnnctn, codes "SMARTsrvCnnctn.")
        ∷ []

    -- what follows the loading
    abbrev pub finish : Tried → World → World × InitSmartRetCode
    finish found v =
        read_values World sep cwd resources option_value read_attr_defs read_nvme_attr_defs
          read_carrier_defs read_srv_cnnctn read_all_drives v
    finish (missing _) v = (v, reading_config_file_failed)
    finish raised v = (v, rethrown)

    abbrev step : CfgFile → (World → World × InitSmartRetCode) → World → World × InitSmartRetCode
    step f =
        or_fail World sep cwd resources option_value read_attr_defs read_nvme_attr_defs
          read_carrier_defs read_srv_cnnctn read_all_drives f.0 f.1

    abbrev steps : List CfgFile → World → World × InitSmartRetCode
    steps [] = finish found
    steps (f ∷ fs) = step f (steps fs)

    abbrev Ends : List CfgFile → World → Type 0
    Ends fs w = (v : World) × (t : Tried) × Loading fs w v t × (steps fs w ≡ finish t v)

    -- what a file's step does with the outcome of the attempt
    abbrev pick : (World → World × InitSmartRetCode) → World × Tried → World × InitSmartRetCode
    pick rest (v, found) = rest v
    pick rest (v, missing _) = (v, reading_config_file_failed)
    pick rest (v, raised) = (v, rethrown)

    step_lem :
        (f : CfgFile) (rest : World → World × InitSmartRetCode) (w : World)
        → step f rest w ≡ pick rest (try_file f w)
    unfolding or_fail
    step_lem f rest w = ground arith

    after_file :
        (f : CfgFile) (fs : List CfgFile) (w v : World) (t : Tried)
        → try_file f w ≡ (v, t)
        → Ends fs v
        → Ends (f ∷ fs) w
    after_file f fs w v found e (u, t, l, q) =
        (u, t, next e l, step_lem f (steps fs) w ∙ (ap (pick (steps fs)) e ∙ q))
    after_file f fs w v (missing m) e r =
        (v, missing m, stops (λ q. cc) e, step_lem f (steps fs) w ∙ ap (pick (steps fs)) e)
    after_file f fs w v raised e r =
        (v, raised, stops (λ q. cc) e, step_lem f (steps fs) w ∙ ap (pick (steps fs)) e)

    steps_end : (fs : List CfgFile) (w : World) → Ends fs w
    steps_end [] w = (w, found, done, refl)
    steps_end (f ∷ fs) w =
        after_file f fs w (try_file f w).0 (try_file f w).1 refl (steps_end fs (try_file f w).0)

    -- The start loads the four files in their order up to the first that cannot be loaded. Only when all
    -- are loaded the drives are read; else the start ends at once, with the state that the failing
    -- attempt left and the code for a missing file, or the exception.
    pub start_lem :
        (w : World)
        → (v : World) × (t : Tried) × Loading cfg_files w v t
          × (initialize_smart World sep cwd resources option_value read_attr_defs
                read_nvme_attr_defs read_carrier_defs read_srv_cnnctn read_all_drives w
              ≡ finish t v)
    unfolding initialize_smart
    start_lem w = steps_end cfg_files w
