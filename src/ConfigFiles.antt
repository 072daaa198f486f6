-- ===== src/ConfigFiles.antt =====
-- Where the configuration files are looked for, and the start: `ConstructConfigFilePath`,
-- `tryCfgFilePaths` and `InitializeSMART` in src/SMARTmonitorBase.cpp. The loaders, the reading of all
-- drives and what they change (`World`), the current working directory, the installation directory
-- and the value of the command line option "configfilepath" are parameters.
pub mod Start
use smartmonitor.Common.{
  ℕ, Bool, true, false, List, [], ◌∷◌, ◌++◌, Option, none, some, if◌then◌else◌, Bytes, codes,
}
use smartmonitor.Common.Texts.{same}

-- What a loader does with a path: `false` with the text for the user, or a `ParseConfigFileException`.
pub data LoadResult : Type 0 where
  loaded : LoadResult
  not_loaded : Bytes → LoadResult
  parse_exception : LoadResult

-- What `tryCfgFilePaths` returns, `false` with the warning that it shows, or throws.
pub data Tried : Type 0 where
  found : Tried
  missing : Bytes → Tried
  raised : Tried

-- What `ReadSMARTValuesForAllDrives` returns.
pub data AccessCode : Type 0 where
  access_denied no_single_smart_device access_success other_code : AccessCode

-- `InitSMARTretCode`; `rethrown` is the exception that leaves `InitializeSMART`.
pub data InitSmartRetCode : Type 0 where
  success reading_config_file_failed access_to_smart_denied : InitSmartRetCode
  no_smart_capable_device_present rethrown : InitSmartRetCode

-- `ConstructConfigFilePath`
unfoldable pub construct_config_file_path : ℕ → Bytes → Bytes → Bytes → Bytes
construct_config_file_path sep cwd option_value path =
    let base = if same path [] then cwd else path in
    if same option_value [] then base ++ sep ∷ codes "config" ++ sep ∷ [] else base

module _ (World : Type 0) (sep : ℕ) (cwd resources option_value : Bytes) where
  abbrev pub Loader : Type 0
  Loader = World → Bytes → World × LoadResult

  -- the two paths of a file
  unfoldable pub first_path : Bytes → Bytes
  first_path name = construct_config_file_path sep cwd option_value resources ++ name

  unfoldable pub second_path : Bytes → Bytes
  second_path name = construct_config_file_path sep cwd option_value [] ++ name

  -- the second attempt, behind the first error
  unfoldable pub try_second : Loader → Bytes → Bytes → World → World × Tried
  try_second load name error_1 w =
      let (v, r) = load w (second_path name) in
      elim r [
        | loaded ↦ (v, found)
        | not_loaded error_2 ↦ (v, missing (error_1 ++ codes "\n" ++ error_2))
        | parse_exception ↦ (v, raised)
      ]

  -- `tryCfgFilePaths`
  unfoldable pub try_cfg_file_paths : Loader → Bytes → World → World × Tried
  try_cfg_file_paths load name w =
      let (v, r) = load w (first_path name) in
      elim r [
        | loaded ↦ (v, found)
        | not_loaded error_1 ↦
            if same resources []
            then (v, missing (error_1 ++ codes "\n"))
            else try_second load name error_1 v
        | parse_exception ↦ (v, raised)
      ]

  module _ (read_attr_defs read_nvme_attr_defs read_carrier_defs read_srv_cnnctn : Loader)
      (read_all_drives : World → World × AccessCode) where
    -- the `switch` on the result of the direct access
    unfoldable pub init_code : AccessCode → InitSmartRetCode
    init_code access_denied = access_to_smart_denied
    init_code no_single_smart_device = no_smart_capable_device_present
    init_code access_success = success
    init_code other_code = success

    unfoldable pub read_values : World → World × InitSmartRetCode
    unfolding init_code
    read_values w = let (v, code) = read_all_drives w in (v, init_code code)

    -- `if(! tryCfgFilePaths(...)) return readingConfigFileFailed;` in front of the rest, in the `try`
    -- block
    unfoldable pub or_fail :
        Loader → Bytes → (World → World × InitSmartRetCode) → World → World × InitSmartRetCode
    or_fail load name rest w =
        let (v, t) = try_cfg_file_paths load name w in
        elim t [
          | found ↦ rest v
          | missing _ ↦ (v, reading_config_file_failed)
          | raised ↦ (v, rethrown)
        ]

    -- `InitializeSMART`, built with direct access
    unfoldable pub initialize_smart : World → World × InitSmartRetCode
    unfolding or_fail
    initialize_smart = or_fail read_attr_defs (codes "en/SMARTattrDefs.") (
        or_fail read_nvme_attr_defs (codes "en/NVMeSMARTattrDefs.") (
          or_fail read_carrier_defs (codes "dataCarrierDefs.")
            (or_fail read_srv_cnnctn (codes "SMARTsrvCnnctn.") read_values)))
