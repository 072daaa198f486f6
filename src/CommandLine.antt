-- ===== src/CommandLine.antt =====
-- The command line that all programs understand: `ProcessCommandLineArgs` and its helpers in
-- src/SMARTmonitorBase.cpp. The class that keeps the arguments is a parameter, `argument i` being
-- `getArg(i)`, also behind the last one; so are the conversion to narrow characters and whether the
-- logger knows a level, and where the arguments behind the path of the program begin. A text is a list of character codes.
pub mod Styles
pub mod Usage
use smartmonitor.Common.{
  ℕ, zero, suc, ◌+◌, Bool, true, false, List, [], ◌∷◌, ◌++◌, Option, none, some, ltb, ◌==◌,
  if◌then◌else◌, Bytes, codes,
}
use smartmonitor.Common.Texts.{same, is_among, split_first, behind_last}

-- `sccssfllyParsedAllCmdLneArgs`, `calledHelp`
pub data Parsed : Type 0 where
  sccssflly_parsed_all_cmd_lne_args called_help : Parsed

-- What is written for the user.
pub data Output : Type 0 where
  unknown_command_line_option : Bytes → Output
  not_a_valid_log_level : Bytes → Output
  usage : Output

-- The settings, the output, newest first, and the local variables of the loop.
pub record Settings : Type 0 where
  pub svc_conn_conf_file : Bytes  -- s_programOptionValues[serviceConnectionConfigFile]
  pub log_file_path : Bytes  -- m_stdstrLogFilePath
  pub log_level : Option Bytes  -- what was last given to g_logger
  pub output : List Output
  pub at_least_1_unknown : Bool
  pub show_usage : Bool
  pub ret_val : Parsed

-- The local variables as the function begins.
unfoldable pub fresh : Settings → Settings
fresh st = record st {
  at_least_1_unknown = false;
  show_usage = false;
  ret_val = sccssflly_parsed_all_cmd_lne_args;
}

-- `s_commandLineOptions` up to its empty name
abbrev pub command_line_options : List Bytes
command_line_options = codes "logfilefolder" ∷ codes "svcConnConfFile" ∷ codes "loglevel" ∷ []

abbrev pub help : Bytes
help = codes "--help"

-- `GetExeFileName` with the character that separates directories
unfoldable pub get_exe_file_name : ℕ → Bytes → Bytes
get_exe_file_name sep path = elim (behind_last sep path) [ none ↦ path | some name ↦ name ]

-- The folder ends with the separator behind it, unless it is empty.
unfoldable pub with_separator : ℕ → Bytes → Bytes
with_separator sep [] = []
with_separator sep (c ∷ []) = if c == sep then c ∷ [] else c ∷ sep ∷ []
with_separator sep (c ∷ d ∷ s) = c ∷ with_separator sep (d ∷ s)

module _ (narrow : Bytes → Bytes) (is_level : Bytes → Bool) (sep : ℕ) (prog_path : Bytes) where
  -- `HandleLogFileFolderProgramOption`
  unfoldable pub handle_log_file_folder : Settings → Bytes → Settings
  handle_log_file_folder st folder = record st {
    log_file_path = narrow (with_separator sep folder) ++ narrow (get_exe_file_name sep prog_path);
  }

  -- The body of the loop in `ProcessCommandLineArgs`, once name and value are known.
  unfoldable pub process_option : Settings → Bytes → Bytes → Settings
  process_option st name value =
      if same name help
      then record st { show_usage = true; ret_val = called_help }
      else if same value []
      then record st {
        output = unknown_command_line_option name ∷ st.output;
        at_least_1_unknown = true;
      }
      else if same name (codes "svcConnConfFile")
      then record st { svc_conn_conf_file = value }
      else if same name (codes "logfilefolder")
      then handle_log_file_folder st value
      else if same name (codes "loglevel")
      then (if is_level (narrow value)
          then record st { log_level = some (narrow value) }
          else record st { output = not_a_valid_log_level value ∷ st.output; show_usage = true })
      else st

  module _ (first_idx : ℕ) (count : ℕ) (argument : ℕ → Bytes) where
    unfoldable pub get_command_option_value : ℕ → Bytes
    get_command_option_value i =
        if is_among (narrow (argument i)) command_line_options then argument (i + 1) else []

    -- `GetCmdLineOptionNameAndValue`: the next index, the name and the value, which `--help` leaves
    -- as it was
    unfoldable pub get_cmd_line_option_name_and_value : ℕ → Bytes → ℕ × (Bytes × Bytes)
    get_cmd_line_option_name_and_value i value = elim (split_first b'=' (argument i)) [
      | some p ↦ (i + 1, (p.0, p.1))
      | none ↦
          if same (argument i) help
          then (i + 1, (argument i, value))
          else (i + 2, (argument i, get_command_option_value i))
    ]

    -- The loop from an argument on. `none`: the fuel is used up; the number of arguments is enough.
    unfoldable pub process_from : ℕ → ℕ → Bytes → Settings → Option Settings
    process_from zero i value st = none
    process_from (suc fuel) i value st = elim (ltb i count) [
      | false ↦ some st
      | true ↦
          let (next, (name, val)) = get_cmd_line_option_name_and_value i value in
          process_from fuel next val (process_option st name val)
    ]

    -- what follows the loop
    unfoldable pub after_loop : Settings → Settings
    after_loop st =
        let shown = if st.at_least_1_unknown then record st { show_usage = true } else st in
        if shown.show_usage then record shown { output = usage ∷ shown.output } else shown

    -- `ProcessCommandLineArgs`
    unfoldable pub process_command_line_args : Settings → Option Settings
    unfolding after_loop fresh
    process_command_line_args st =
        if ltb 1 count
        then elim (process_from (suc count) first_idx [] (fresh st)) [
          | none ↦ none
          | some end ↦ some (after_loop end)
        ]
        else some (after_loop (record (fresh st) { show_usage = true }))

-- The log file of `InitializeLogger`, in front of the opening.
unfoldable pub log_file : (Bytes → Bytes) → ℕ → Bytes → Bytes → Bytes
log_file narrow sep prog_path [] = narrow (get_exe_file_name sep prog_path ++ codes "_log.txt")
log_file narrow sep prog_path (c ∷ path) = (c ∷ path) ++ codes "_log.txt"
