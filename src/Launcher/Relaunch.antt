-- ===== src/Launcher/Relaunch.antt =====
-- How the launcher starts its elevated copy (ElevationRequest::Launch of src/launcher/Elevation.cpp), and
-- the texts of system errors. What the system answers is an argument.
use dx12track.Prelude.{ℕ, Bool, true, false, ◌||◌, [], ◌∷◌, ◌++◌, ◌==◌, if◌then◌else◌}
use dx12track.Json.{codes, decimal}
use dx12track.Wide.{Wide}

-- RawArgsAfterExe: the command line behind argv[0] and the blanks after it.
unfoldable pub after_quote : Wide → Wide
after_quote [] = []
after_quote (c ∷ s) = if c == 34 then s else after_quote s

unfoldable pub after_word : Wide → Wide
after_word [] = []
after_word (c ∷ s) = if c == 32 || c == 9 then c ∷ s else after_word s

unfoldable pub skip_blanks : Wide → Wide
skip_blanks [] = []
skip_blanks (c ∷ s) = if c == 32 || c == 9 then skip_blanks s else c ∷ s

unfoldable pub raw_args_after_exe : Wide → Wide
unfolding after_quote after_word skip_blanks
raw_args_after_exe [] = []
raw_args_after_exe (c ∷ s) = skip_blanks (if c == 34 then after_quote s else after_word (c ∷ s))

-- lpParameters of the relaunch.
unfoldable pub relaunch_parameters : ℕ → Wide → Wide
relaunch_parameters pid command_line =
    codes "--elevated-by " ++ (decimal pid ++ (32 ∷ raw_args_after_exe command_line))

-- FormatWin32Error, from the end of FormatMessage's text: its trailing blanks are dropped.
unfoldable pub drop_blanks_end : Wide → Wide
drop_blanks_end [] = []
drop_blanks_end (c ∷ s) =
    let rest = drop_blanks_end s in
    elim rest [ [] ↦ if c == 13 || c == 10 || c == 32 then [] else c ∷ [] | d ∷ ds ↦ c ∷ (d ∷ ds) ]

abbrev pub with_code : Wide → ℕ → Wide
with_code [] code = codes "error " ++ decimal code
with_code (c ∷ s) code = (c ∷ s) ++ (codes " (error " ++ (decimal code ++ codes ")"))

-- `message` is empty where FormatMessage fails.
unfoldable pub format_win32_error : Wide → ℕ → Wide
unfolding drop_blanks_end
format_win32_error message code = with_code (drop_blanks_end message) code

pub data Result : Type 0 where
  ok declined failed : Result

-- CreateFileMapping: a mapping, new or not, or none.
pub data MappingAnswer : Type 0 where
  created exists refused : MappingAnswer

-- ShellExecuteEx: with a process handle or not, or the error.
pub data ExecuteAnswer : Type 0 where
  started : Bool → ExecuteAnswer
  error : ℕ → ExecuteAnswer

abbrev pub error_cancelled : ℕ
error_cancelled = 1223

-- `has_path`: GetModuleFileName succeeds; `viewed`: MapViewOfFile does.
pub record LaunchAnswers : Type 0 where
  pub has_path : Bool
  pub mapping : MappingAnswer
  pub viewed : Bool
  pub executed : ExecuteAnswer

abbrev execute_result : ExecuteAnswer → Result
execute_result (ExecuteAnswer.started true) = Result.ok
execute_result (ExecuteAnswer.started false) = Result.failed
execute_result (ExecuteAnswer.error code) =
    if code == error_cancelled then Result.declined else Result.failed

abbrev map_result : MappingAnswer → Bool → ExecuteAnswer → Result
map_result MappingAnswer.created true executed = execute_result executed
map_result _ _ executed = Result.failed

unfoldable pub launch : LaunchAnswers → Result
launch a = if a.has_path then map_result a.mapping a.viewed a.executed else Result.failed
