-- ===== src/Examples/CommandLine.antt =====
-- A command line with both ways of giving an option, and a start at which the third file is missing.
use smartmonitor.Common.{
  ℕ, ◌+◌, ◌-◌, ◌≡◌, refl, ap, true, false, List, [], ◌∷◌, Option, none, some, arith, Bytes, codes,
  get_elem?, All,
}
use smartmonitor.Common.Texts.{lacks, lacks→All, is_among, same}
use smartmonitor.CommandLine.{
  Settings, sccssflly_parsed_all_cmd_lne_args, after_loop, process_command_line_args, fresh,
}
use smartmonitor.CommandLine.Styles.{
  IsProper, Given, joined, parted, arguments, take_all_given, Shows, options_processed,
}
use smartmonitor.ConfigFiles.{
  LoadResult, loaded, not_loaded, Tried, AccessCode, access_success, initialize_smart,
}
use smartmonitor.ConfigFiles.Start.{Loading, cfg_files, finish, start_lem}

abbrev settings : Settings
settings = record {
  svc_conn_conf_file = [];
  log_file_path = [];
  log_level = none;
  output = [];
  at_least_1_unknown = false;
  show_usage = false;
  ret_val = sccssflly_parsed_all_cmd_lne_args;
}

-- loglevel=debug svcConnConfFile a=b
abbrev options : List Given
options =
    joined (codes "loglevel") (codes "debug") ∷ parted (codes "svcConnConfFile") (codes "a=b") ∷ []

-- the arguments behind the path of the program
abbrev given_argument : ℕ → Bytes
given_argument i = elim (get_elem? (arguments options) (i - 1)) [ none ↦ [] | some a ↦ a ]

or_nothing : Option Bytes → Bytes
or_nothing none = []
or_nothing (some a) = a

options-Shows :
    Shows (λ s. s) (λ s. true) b'/' (codes "smartmon") 1 4 given_argument 1 (arguments options)
unfolding or_nothing
options-Shows j a e =
    let q : 1 + j - 1 ≡ j = omega arith in rw (given_argument, q) (ap or_nothing e)

options-IsProper : All (IsProper (λ s. s) (λ s. true) b'/' (codes "smartmon")) options
unfolding lacks is_among same
options-IsProper = (
  lacks→All b'=' (codes "loglevel") refl,
  ((lacks→All b'=' (codes "svcConnConfFile") refl, (refl, refl)), tt),
)

options_processed_example :
    process_command_line_args
      (λ s. s)
      (λ s. true)
      b'/'
      (codes "smartmon")
      1
      4
      given_argument
      settings
    ≡ some (
        after_loop
          (λ s. s)
          (λ s. true)
          b'/'
          (codes "smartmon")
          1
          4
          given_argument
          (take_all_given (λ s. s) (λ s. true) b'/' (codes "smartmon") (fresh settings) options))
options_processed_example =
    options_processed (λ s. s) (λ s. true) b'/' (codes "smartmon") 1 4 given_argument options
      settings (omega arith) options-IsProper options-Shows refl

abbrev loads : ℕ → Bytes → ℕ × LoadResult
loads w path = (w + 1, loaded)

abbrev fails : ℕ → Bytes → ℕ × LoadResult
fails w path = (w + 1, not_loaded (codes "not found"))

abbrev reads : ℕ → ℕ × AccessCode
reads w = (w + 10, access_success)

start_lem_example :
    (v : ℕ) × (t : Tried) × Loading ℕ b'/'
      (codes "/home")
      (codes "/usr")
      []
      (cfg_files ℕ b'/' (codes "/home") (codes "/usr") [] loads loads fails loads reads)
      0
      v
      t
    × (initialize_smart ℕ b'/' (codes "/home") (codes "/usr") [] loads loads fails loads reads 0
        ≡ finish ℕ b'/' (codes "/home") (codes "/usr") [] loads loads fails loads reads t v)
start_lem_example =
    start_lem ℕ b'/' (codes "/home") (codes "/usr") [] loads loads fails loads reads 0
