-- ===== src/Launcher/Args.antt =====
-- The launcher's command line (wmain of src/launcher/Main.cpp, up to the options it finds). An argument
-- is the list of its UTF-16 units.
pub mod RoundTrip
use dx12track.Prelude.{
  ℕ, ◌*◌, ◌%◌, ◌^◌, Bool, true, false, not, ◌&&◌, ◌||◌, List, [], ◌∷◌, ◌++◌, Option, none, some,
  ltb, nonzero, lists_eq, ◌==◌, if◌then◌else◌,
}
use dx12track.Json.{codes}
use dx12track.Wide.{Wide, wcstoul}

pub record Options : Type 0 where
  pub jsonl_path : Wide
  pub child_args : List Wide
  pub target : Wide
  pub dump_console_path : Wide
  pub callstacks : Bool
  pub verbose : Bool
  pub wait_debugger : Bool
  pub use_etw : Bool
  pub no_elevate : Bool
  pub etw_rundown_ms : ℕ

abbrev pub default_options : Options
unfolding codes
default_options = record {
  jsonl_path = codes "dx12track.jsonl";
  child_args = [];
  target = [];
  dump_console_path = [];
  callstacks = false;
  verbose = false;
  wait_debugger = false;
  use_etw = false;
  no_elevate = false;
  etw_rundown_ms = 0;
}

-- What is said before the usage, when wmain returns 1.
pub data UsageError : Type 0 where
  rundown_value unknown_flag : Wide → UsageError
  no_target rundown_without_etw : UsageError

pub data Parsed : Type 0 where
  options : Options → Parsed
  usage : UsageError → Parsed

-- The branch of the loop that an argument takes, if another argument follows it where one is needed.
pub data Token : Type 0 where
  output callstacks verbose debugger etw no_elevate rundown dump dashes unknown target : Token

abbrev is_text : Wide → Wide → Bool
is_text = lists_eq

abbrev is_flag : Wide → Bool
is_flag [] = false
is_flag (c ∷ a) = c == 45

unfoldable pub token_of : Wide → Token
unfolding codes lists_eq
token_of a =
    if is_text a (codes "-o")
    then Token.output
    else if is_text a (codes "--callstacks") || is_text a (codes "-c")
    then Token.callstacks
    else if is_text a (codes "--verbose") || is_text a (codes "-v")
    then Token.verbose
    else if is_text a (codes "--debugger")
    then Token.debugger
    else if is_text a (codes "--etw")
    then Token.etw
    else if is_text a (codes "--no-elevate")
    then Token.no_elevate
    else if is_text a (codes "--etw-rundown")
    then Token.rundown
    else if is_text a (codes "--dump-console")
    then Token.dump
    else if is_text a (codes "--")
    then Token.dashes
    else if is_flag a
    then Token.unknown
    else Token.target

abbrev pub max_rundown_seconds : ℕ
max_rundown_seconds = 86_400

abbrev is_empty : Wide → Bool
is_empty [] = true
is_empty (c ∷ a) = false

-- The seconds of --etw-rundown, where its argument is accepted.
unfoldable pub rundown_seconds : Wide → Option ℕ
rundown_seconds v =
    let (s, end) = wcstoul v in
    if is_empty v || not (is_empty end) || is_flag v || ltb s 1 || ltb max_rundown_seconds s
    then none
    else some s

abbrev pub set_rundown : ℕ → Options → Options
set_rundown s o = record o { etw_rundown_ms = s * 1000 % 2 ^ 32 }

-- The checks behind the loops; the arguments that are left are the child's.
unfoldable pub finish : List Wide → Options → Parsed
finish rest o =
    if is_empty o.target
    then usage no_target
    else if nonzero o.etw_rundown_ms && not o.use_etw
    then usage rundown_without_etw
    else options (record o { child_args = rest })

unfoldable pub parse_last : Wide → Options → Parsed
parse_last a o = elim (token_of a) [
  | Token.output ↦ usage (unknown_flag a)
  | Token.callstacks ↦ finish [] (record o { callstacks = true })
  | Token.verbose ↦ finish [] (record o { verbose = true })
  | Token.debugger ↦ finish [] (record o { wait_debugger = true })
  | Token.etw ↦ finish [] (record o { use_etw = true })
  | Token.no_elevate ↦ finish [] (record o { no_elevate = true })
  | Token.rundown ↦ usage (rundown_value [])
  | Token.dump ↦ usage (unknown_flag a)
  | Token.dashes ↦ finish [] o
  | Token.unknown ↦ usage (unknown_flag a)
  | Token.target ↦ finish [] (record o { target = a })
]

unfoldable pub parse_from : List Wide → Options → Parsed
unfolding finish parse_last
parse_from [] o = finish [] o
parse_from (a ∷ []) o = parse_last a o
parse_from (a ∷ v ∷ rest) o = elim (token_of a) [
  | Token.output ↦ parse_from rest (record o { jsonl_path = v })
  | Token.callstacks ↦ parse_from (v ∷ rest) (record o { callstacks = true })
  | Token.verbose ↦ parse_from (v ∷ rest) (record o { verbose = true })
  | Token.debugger ↦ parse_from (v ∷ rest) (record o { wait_debugger = true })
  | Token.etw ↦ parse_from (v ∷ rest) (record o { use_etw = true })
  | Token.no_elevate ↦ parse_from (v ∷ rest) (record o { no_elevate = true })
  | Token.rundown ↦ elim (rundown_seconds v) [
    | none ↦ usage (rundown_value v)
    | some s ↦ parse_from rest (set_rundown s o)
  ]
  | Token.dump ↦ parse_from rest (record o { dump_console_path = v })
  | Token.dashes ↦ finish (v ∷ rest) o
  | Token.unknown ↦ usage (unknown_flag a)
  | Token.target ↦ finish (v ∷ rest) (record o { target = a })
]

pub data CommandLine : Type 0 where
  runs : ℕ → Parsed → CommandLine
  gone : CommandLine

-- The arguments behind argv[0]; `begins` is what ElevatedSession::Begin answers. `elevated_by` comes
-- with the options.
unfoldable pub parse_args : (ℕ → Bool) → List Wide → CommandLine
unfolding parse_from
parse_args begins [] = runs 0 (parse_from [] default_options)
parse_args begins (a ∷ []) = runs 0 (parse_from (a ∷ []) default_options)
parse_args begins (a ∷ v ∷ rest) =
    let pid = (wcstoul v).0 in
    if not (is_text a (codes "--elevated-by"))
    then runs 0 (parse_from (a ∷ v ∷ rest) default_options)
    else if nonzero pid && not (begins pid)
    then gone
    else runs pid (parse_from rest default_options)

-- BuildCommandLine
abbrev pub spaced : List Wide → Wide
spaced [] = []
spaced (a ∷ rest) = 32 ∷ (a ++ spaced rest)

unfoldable pub build_command_line : Wide → List Wide → Wide
build_command_line exe rest = (34 ∷ (exe ++ 34 ∷ [])) ++ spaced rest
