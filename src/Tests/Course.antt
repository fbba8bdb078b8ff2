-- ===== src/Tests/Course.antt =====
-- The launcher's course and the injection at concrete answers (src/launcher).
use dx12track.Prelude.{lists_eq, ◌≡◌, refl, true, false, List, [], ◌∷◌, none, some, arith}
use dx12track.Json.{codes}
use dx12track.Wide.{Wide}
use dx12track.Launcher.Inject.{InjectAnswers, inject_dll}
use dx12track.Launcher.Relaunch.{launch, MappingAnswer, ExecuteAnswer}
use dx12track.Launcher.Args.{parse_args, token_of}
use dx12track.Launcher.Main.Returns.{Returns, resumes}
use dx12track.Launcher.Main.{
  wants_elevation, waits_forever, Turn, Answers, Timers, render_loop, wmain,
}
use dx12track.Launcher.Main.Orderly.{IsOrderly, wmain-IsOrderly}
use dx12track.Launcher.Main.Loop.{rundown_times, AreApart, render_loop-AreApart}

abbrev loading : InjectAnswers
loading = record {
  has_kernel32 = true;
  has_load_library = true;
  has_remote = true;
  written = some 4;
  has_thread = true;
  exit_code = some 1;
}

abbrev turns : List Turn
turns =
    record { now = 1_000; exit = none; exit_qpc = none }
    ∷ record { now = 1_600; exit = none; exit_qpc = none }
    ∷ record { now = 2_400; exit = some 3; exit_qpc = some 70 }
    ∷ []

-- The user declines the elevation.
abbrev answers : Answers
answers = record {
  begins = λ pid. true;
  dll_path = 97 ∷ [];
  has_dll = true;
  has_target = true;
  is_elevated = false;
  launched = record {
    has_path = true;
    mapping = MappingAnswer.created;
    viewed = true;
    executed = ExecuteAnswer.error 1223;
  };
  elevated_code = some 0;
  pipe_name = some (112 ∷ []);
  has_parent = false;
  has_child = true;
  injected = loading;
  load_returns = true;
  connects = true;
  starts_etw = true;
  started_at = 900;
  turns = turns;
}

abbrev args : List Wide
unfolding codes
args = codes "--etw" ∷ codes "a.exe" ∷ []

wmain-IsOrderly_example : IsOrderly (wmain answers args)
wmain-IsOrderly_example = wmain-IsOrderly answers args

-- The target was resumed.
resumes-wmain : resumes (wmain answers args).1 ≡ true
unfolding wmain args resumes parse_args lists_eq token_of wants_elevation launch inject_dll
    waits_forever
resumes-wmain = refl

abbrev timers : Timers
timers = record { last_rundown = 900; last_stats = 0 }

render_loop-AreApart_example :
    AreApart 600 2_400
      (omega arith)
      900
      (rundown_times (render_loop true 600 timers turns).1 900 turns)
render_loop-AreApart_example =
    render_loop-AreApart 600 2_400 (omega arith) true turns timers 900 (omega arith)
      (omega arith, (omega arith, (omega arith, omega arith)))

two_rundowns : rundown_times (render_loop true 600 timers turns).1 900 turns ≡ 1_600 ∷ 2_400 ∷ []
unfolding rundown_times render_loop
two_rundowns = refl
