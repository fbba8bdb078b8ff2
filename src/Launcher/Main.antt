-- ===== src/Launcher/Main.antt =====
-- The launcher's course (wmain of src/launcher/Main.cpp). What the system and the other parts answer is an
-- argument; the calls that touch the target, its pipe, the ETW session and the display are recorded.
pub mod Orderly
pub mod Loop
pub mod Returns
use dx12track.Prelude.{
  ℕ, ◌+◌, ◌-◌, ◌%◌, ◌^◌, Bool, true, false, not, ◌&&◌, List, [], ◌∷◌, ◌++◌, Option, none, some, leb,
  nonzero, if◌then◌else◌,
}
use dx12track.Json.{codes}
use dx12track.Wide.{Wide}
use dx12track.Launcher.Args.{
  Options, Parsed, options, usage, CommandLine, runs, gone, parse_args, build_command_line,
}
use dx12track.Launcher.Inject.{InjectAnswers, InjectError, inject_dll, reaches_wait}
use dx12track.Launcher.Relaunch.{LaunchAnswers, Result, launch}

pub data Call : Type 0 where
  relaunch create_pipe : Call
  create_child : Bool → Wide → List (Wide × Wide) → Call
  inject : Bool → Call
  terminate : Call
  enable_etw : Call
  set_child_process : Call
  start_etw : Bool → Call
  disable_etw : Call
  resume connect : Call
  poll_child : Call
  saw_exit : ℕ → Call
  set_exit_qpc : ℕ → Call
  request_rundown get_stats etw_tick render : Call
  mark_child_exited : ℕ → Call
  stop_pipe stop_etw finish_etw dump_now close_child : Call

-- One turn of the render loop: the time, the exit code once the target has ended, and where its exit
-- stands on the QPC timeline, if that is known.
pub record Turn : Type 0 where
  pub now : ℕ
  pub exit : Option ℕ
  pub exit_qpc : Option ℕ

-- `elevated_code`: what the wait for the elevated instance gives, none while that goes on; `load_returns`:
-- whether LoadLibraryW comes to an end in the target; `connects`: whether ConnectNamedPipe returns.
pub record Answers : Type 0 where
  pub begins : ℕ → Bool
  pub dll_path : Wide
  pub has_dll : Bool
  pub has_target : Bool
  pub is_elevated : Bool
  pub launched : LaunchAnswers
  pub elevated_code : Option ℕ
  pub pipe_name : Option Wide
  pub has_parent : Bool
  pub has_child : Bool
  pub injected : InjectAnswers
  pub load_returns : Bool
  pub connects : Bool
  pub starts_etw : Bool
  pub started_at : ℕ
  pub turns : List Turn

abbrev pub Outcome : Type 0
Outcome = Option ℕ × List Call

abbrev pub when : Bool → List Call → List Call
when true calls = calls
when false calls = []

-- The loop's last_rundown_ms and last_stats_ms.
pub record Timers : Type 0 where
  pub last_rundown : ℕ
  pub last_stats : ℕ

-- An unsigned difference of 64 bits.
abbrev pub since : ℕ → ℕ → ℕ
since now last = (now + 2 ^ 64 - last) % 2 ^ 64

unfoldable pub rundown_due : ℕ → Timers → ℕ → Bool
rundown_due interval t now = nonzero interval && leb interval (since now t.last_rundown)

unfoldable pub stats_due : Timers → ℕ → Bool
stats_due t now = leb 1_000 (since now t.last_stats)

unfoldable pub next_timers : ℕ → Timers → ℕ → Timers
unfolding rundown_due stats_due
next_timers interval t now = record {
  last_rundown = if rundown_due interval t now then now else t.last_rundown;
  last_stats = if stats_due t now then now else t.last_stats;
}

abbrev pub exit_calls : Option ℕ → Option ℕ → List Call
exit_calls none qpc = []
exit_calls (some code) none = saw_exit code ∷ []
exit_calls (some code) (some q) = saw_exit code ∷ set_exit_qpc q ∷ []

unfoldable pub turn_calls : ℕ → Timers → Turn → List Call
unfolding rundown_due stats_due
turn_calls interval t turn =
    poll_child
    ∷ (exit_calls turn.exit turn.exit_qpc
        ++ (when (rundown_due interval t turn.now) (request_rundown ∷ [])
            ++ (when (stats_due t turn.now) (get_stats ∷ []) ++ etw_tick ∷ render ∷ [])))

-- Without an ETW session.
unfoldable pub plain_calls : Turn → List Call
plain_calls turn = exit_calls turn.exit none ++ render ∷ []

-- From the end of the loop on.
unfoldable pub last_calls : Bool → ℕ → List Call
last_calls etw code =
    mark_child_exited code
    ∷ stop_pipe
    ∷ (when etw (stop_etw ∷ get_stats ∷ finish_etw ∷ []) ++ render ∷ dump_now ∷ close_child ∷ [])

-- Behind a turn the loop goes on, or the target has ended.
unfoldable pub go_on : Bool → List Call → Outcome → Option ℕ → Outcome
unfolding last_calls
go_on etw calls (code, rest) none = (code, calls ++ rest)
go_on etw calls rest (some exit) = (some exit, calls ++ last_calls etw exit)

-- The loop, and what follows it. Where the turns end before the target does, it still runs.
unfoldable pub render_loop : Bool → ℕ → Timers → List Turn → Outcome
unfolding turn_calls plain_calls go_on next_timers
render_loop etw interval t [] = (none, [])
render_loop etw interval t (turn ∷ turns) =
    let calls = if etw then turn_calls interval t turn else plain_calls turn in
    let t' = if etw then next_timers interval t turn.now else t in
    let rest = render_loop etw interval t' turns in go_on etw calls rest turn.exit

-- 4b): `skip` where the elevation failed or was declined.
unfoldable pub start_calls : Bool → Bool → Bool → List Call
start_calls use_etw skip starts =
    if not use_etw
    then []
    else enable_etw
      ∷ set_child_process
      ∷ (if skip
          then disable_etw ∷ []
          else if starts
          then start_etw true ∷ []
          else start_etw false ∷ disable_etw ∷ [])

abbrev pub etw_running : Bool → Bool → Bool → Bool
etw_running use_etw skip starts = use_etw && not skip && starts

abbrev pub flag : Bool → Wide
flag b = (if b then 49 else 48) ∷ []

unfoldable pub child_env : Wide → Options → List (Wide × Wide)
unfolding codes
child_env pipe_name o =
    (codes "DX12TRACK_PIPE", pipe_name)
    ∷ (codes "DX12TRACK_JSON", o.jsonl_path)
    ∷ (codes "DX12TRACK_CALLSTACKS", flag o.callstacks)
    ∷ (codes "DX12TRACK_VERBOSE", flag o.verbose)
    ∷ (codes "DX12TRACK_WAIT_DEBUGGER", flag o.wait_debugger)
    ∷ []

-- From the injection on.
unfoldable pub run_child : Answers → Options → Bool → Option InjectError → Outcome
unfolding render_loop start_calls
run_child a o skip (some error) = (some 5, inject false ∷ terminate ∷ close_child ∷ [])
run_child a o skip none =
    let etw = etw_running o.use_etw skip a.starts_etw in
    let t : Timers = record { last_rundown = a.started_at; last_stats = 0 } in
    let (code, calls) =
      if a.connects then render_loop etw o.etw_rundown_ms t a.turns else (none, []) in
    (code, inject true ∷ (start_calls o.use_etw skip a.starts_etw ++ resume ∷ connect ∷ calls))

-- InjectDll waits for LoadLibraryW without a limit under --debugger.
unfoldable pub waits_forever : Answers → Options → Bool
waits_forever a o = o.wait_debugger && not a.load_returns && reaches_wait a.injected a.dll_path

-- InjectDll, and what comes behind it if it returns.
unfoldable pub inject_and_run : Answers → Options → Bool → Outcome
unfolding run_child waits_forever
inject_and_run a o skip =
    let rest = run_child a o skip (inject_dll a.injected a.dll_path).0 in
    if waits_forever a o then (none, []) else rest

-- Behind PipeServer::Create.
unfoldable pub create_target : Answers → Options → ℕ → Bool → Option Wide → Outcome
unfolding inject_and_run
create_target a o elevated_by skip none = (some 3, create_pipe ∷ [])
create_target a o elevated_by skip (some pipe_name) =
    let command_line = build_command_line o.target o.child_args in
    let parent = nonzero elevated_by && a.has_parent in
    let (code, calls) = inject_and_run a o skip in
    if not a.has_child
    then (some 4, create_pipe ∷ [])
    else (code, create_pipe ∷ create_child parent command_line (child_env pipe_name o) ∷ calls)

unfoldable pub launch_target : Answers → Options → ℕ → Bool → Outcome
unfolding create_target
launch_target a o elevated_by skip = create_target a o elevated_by skip a.pipe_name

unfoldable pub wants_elevation : Answers → Options → ℕ → Bool
wants_elevation a o elevated_by =
    o.use_etw && not o.no_elevate && not (nonzero elevated_by) && not a.is_elevated

-- Behind the relaunch.
unfoldable pub relaunched : Answers → Options → ℕ → Result → Outcome
unfolding launch_target
relaunched a o elevated_by Result.ok = (a.elevated_code, relaunch ∷ [])
relaunched a o elevated_by Result.declined =
    let (code, calls) = launch_target a o elevated_by true in (code, relaunch ∷ calls)
relaunched a o elevated_by Result.failed =
    let (code, calls) = launch_target a o elevated_by true in (code, relaunch ∷ calls)

unfoldable pub run_parsed : Answers → ℕ → Parsed → Outcome
unfolding relaunched launch_target
run_parsed a elevated_by (usage error) = (some 1, [])
run_parsed a elevated_by (options o) =
    if not a.has_dll
    then (some 2, [])
    else if not a.has_target
    then (some 2, [])
    else if wants_elevation a o elevated_by
    then relaunched a o elevated_by (launch a.launched)
    else launch_target a o elevated_by false

unfoldable pub run_command_line : Answers → CommandLine → Outcome
unfolding run_parsed
run_command_line a (runs elevated_by parsed) = run_parsed a elevated_by parsed
run_command_line a gone = (some 6, [])

-- The exit code, if wmain returns and does not wait for the elevated instance, for LoadLibraryW, for
-- the target's connection or for the target's end, and the calls; the arguments are those behind argv[0].
unfoldable pub wmain : Answers → List Wide → Outcome
unfolding run_command_line
wmain a args = run_command_line a (parse_args a.begins args)
