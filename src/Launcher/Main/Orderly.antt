-- ===== src/Launcher/Main/Orderly.antt =====
-- The launcher's calls are in order, whatever the system answers (src/launcher/Main.cpp).
use dx12track.Prelude.{
  ℕ, ◌≡◌, refl, ◌∙◌, Bool, true, false, not, ◌&&◌, List, [], ◌∷◌, ◌++◌, Option, none, some, arith,
  if◌then◌else◌, if_both,
}
use dx12track.Wide.{Wide}
use dx12track.Launcher.Args.{Options, options, usage, CommandLine, runs, gone, parse_args}
use dx12track.Launcher.Inject.{InjectError, inject_dll}
use dx12track.Launcher.Relaunch.{Result, launch}
use dx12track.Launcher.Main.{
  Call, relaunch, create_pipe, create_child, inject, terminate, enable_etw, set_child_process,
  start_etw, disable_etw, resume, connect, poll_child, saw_exit, set_exit_qpc, request_rundown,
  get_stats, etw_tick, render, mark_child_exited, stop_pipe, stop_etw, finish_etw, dump_now,
  close_child, Turn, Answers, Outcome, Timers, turn_calls, plain_calls, last_calls, go_on,
  render_loop, start_calls, etw_running, wants_elevation, run_child, waits_forever, inject_and_run,
  create_target, when, rundown_due, stats_due, next_timers, launch_target, relaunched, run_parsed,
  run_command_line, wmain,
}

-- What becomes of the target: it is created suspended, the DLL is loaded or refused, and it is resumed
-- or terminated; a target that has ended is closed.
pub data Phase : Type 0 where
  absent suspended loaded refused running ended killed closed : Phase

pub record Life : Type 0 where
  pub phase : Phase
  pub has_pipe : Bool
  pub has_session : Bool

abbrev pub before : Life
before = record { phase = Phase.absent; has_pipe = false; has_session = false }

abbrev is_up : Phase → Bool
is_up Phase.running = true
is_up Phase.ended = true
is_up _ = false

abbrev keep_if : Bool → Life → Option Life
keep_if b l = if b then some l else none

-- The phase behind a call that moves the target on, where it may be made.
abbrev move : Call → Phase → Option Phase
move (create_child parent command_line env) Phase.absent = some Phase.suspended
move (inject true) Phase.suspended = some Phase.loaded
move (inject false) Phase.suspended = some Phase.refused
move terminate Phase.refused = some Phase.killed
move enable_etw Phase.loaded = some Phase.loaded
move set_child_process Phase.loaded = some Phase.loaded
move disable_etw Phase.loaded = some Phase.loaded
move (start_etw started) Phase.loaded = some Phase.loaded
move resume Phase.loaded = some Phase.running
move (saw_exit code) Phase.running = some Phase.ended
move (mark_child_exited code) Phase.ended = some Phase.ended
move close_child Phase.ended = some Phase.closed
move close_child Phase.killed = some Phase.closed
move _ _ = none

abbrev advance : Call → Life → Option Life
advance c l = elim (move c l.phase) [ none ↦ none | some p ↦ some (record l { phase = p }) ]

-- A call at a point of the launcher's life, where it is in order. What concerns the ETW session needs
-- one; the session is started while the target is loaded and not resumed, and stopped when it has ended.
abbrev pub allow : Call → Life → Option Life
allow relaunch l = some l
allow create_pipe l = if l.has_pipe then none else some (record l { has_pipe = true })
allow (start_etw true) l =
    if l.has_session then none else advance (start_etw true) (record l { has_session = true })
allow connect l = keep_if (l.has_pipe && is_up l.phase) l
allow poll_child l = keep_if (l.has_session && is_up l.phase) l
allow (set_exit_qpc q) l = keep_if l.has_session l
allow request_rundown l = keep_if (l.has_session && is_up l.phase) l
allow get_stats l = keep_if (is_up l.phase) l
allow etw_tick l = keep_if (l.has_session && is_up l.phase) l
allow render l = keep_if (is_up l.phase) l
allow stop_pipe l = if l.has_pipe then some (record l { has_pipe = false }) else none
allow stop_etw l = elim l.phase [
  | Phase.ended ↦ if l.has_session then some (record l { has_session = false }) else none
  | _ ↦ none
]
allow finish_etw l = keep_if (not l.has_session) l
allow dump_now l = some l
allow c l = advance c l

-- The life behind some calls, if each is in order.
unfoldable pub live : List Call → Life → Option Life
live [] l = some l
live (c ∷ cs) l = elim (allow c l) [ none ↦ none | some l' ↦ live cs l' ]

-- The target is not there, or it is closed, and the ETW session is stopped.
abbrev pub is_over : Life → Bool
is_over l = elim l.phase [
  | Phase.absent ↦ not l.has_session
  | Phase.closed ↦ not l.has_session
  | _ ↦ false
]

-- Where wmain waits: for the elevated instance before there is a target, for LoadLibraryW in the suspended
-- target, or for the target that runs.
abbrev pub is_waiting : Life → Bool
is_waiting l = elim l.phase [
  | Phase.absent ↦ not l.has_pipe
  | Phase.suspended ↦ true
  | Phase.running ↦ true
  | _ ↦ false
]

abbrev pub Ends : Option ℕ → Life → Type 0
Ends none l = is_waiting l ≡ true
Ends (some code) l = is_over l ≡ true

-- From a life on, the calls are in order; when wmain returns, all is over, and until then it waits.
abbrev pub IsOrderlyFrom : Life → Outcome → Type 0
IsOrderlyFrom start (code, calls) = (l : Life) × (live calls start ≡ some l) × Ends code l

abbrev pub IsOrderly : Outcome → Type 0
IsOrderly o = IsOrderlyFrom before o

abbrev live_on : Option Life → List Call → Option Life
live_on o cs = elim o [ none ↦ none | some l ↦ live cs l ]

live_on-append :
    (o : Option Life) (xs ys : List Call) (l' : Life)
    → ((l : Life) → live xs l ≡ some l' → live (xs ++ ys) l ≡ live ys l')
    → live_on o xs ≡ some l'
    → live_on o (xs ++ ys) ≡ live ys l'
live_on-append none xs ys l' ih h = cc
live_on-append (some l) xs ys l' ih h = ih l h

live-append :
    (xs ys : List Call) (l l' : Life) → live xs l ≡ some l' → live (xs ++ ys) l ≡ live ys l'
unfolding live
live-append [] ys l l' h = ground arith
live-append (x ∷ xs) ys l l' h = live_on-append (allow x l) xs ys l' (λ k. live-append xs ys k l') h

-- A call that leaves the life as it is may be left out.
live-when :
    (b : Bool) (c : Call) (cs : List Call) (l : Life)
    → allow c l ≡ some l
    → live (when b (c ∷ []) ++ cs) l ≡ live cs l
unfolding live
live-when true c cs l h = rw (live, h) refl
live-when false c cs l h = refl

abbrev up : Phase → Bool → Life
up p etw = record { phase = p; has_pipe = true; has_session = etw }

abbrev phase_after : Option ℕ → Phase
phase_after none = Phase.running
phase_after (some code) = Phase.ended

module _ (interval : ℕ) (t : Timers) where
  turn_calls-live :
      (now : ℕ) (exit qpc : Option ℕ)
      → live
          (turn_calls interval t (record { now = now; exit = exit; exit_qpc = qpc }))
          (up Phase.running true)
        ≡ some (up (phase_after exit) true)
  unfolding turn_calls live
  turn_calls-live now none qpc =
      live-when (rundown_due interval t now) request_rundown _ (up Phase.running true) refl
      ∙ live-when (stats_due t now) get_stats _ (up Phase.running true) refl
  turn_calls-live now (some code) none =
      live-when (rundown_due interval t now) request_rundown _ (up Phase.ended true) refl
      ∙ live-when (stats_due t now) get_stats _ (up Phase.ended true) refl
  turn_calls-live now (some code) (some q) =
      live-when (rundown_due interval t now) request_rundown _ (up Phase.ended true) refl
      ∙ live-when (stats_due t now) get_stats _ (up Phase.ended true) refl

plain_calls-live :
    (now : ℕ) (exit qpc : Option ℕ)
    → live
        (plain_calls (record { now = now; exit = exit; exit_qpc = qpc }))
        (up Phase.running false)
      ≡ some (up (phase_after exit) false)
unfolding plain_calls live
plain_calls-live now none qpc = refl
plain_calls-live now (some code) qpc = refl

last_calls-live :
    (etw : Bool) (code : ℕ)
    → live (last_calls etw code) (up Phase.ended etw)
      ≡ some (record { phase = Phase.closed; has_pipe = false; has_session = false })
unfolding last_calls live
last_calls-live true code = refl
last_calls-live false code = refl

prefix-IsOrderly :
    (calls : List Call) (l l' : Life) (code : Option ℕ) (rest : List Call)
    → live calls l ≡ some l'
    → IsOrderlyFrom l' (code, rest)
    → IsOrderlyFrom l (code, calls ++ rest)
prefix-IsOrderly calls l l' code rest h (k, lives, ends) =
    (k, live-append calls rest l l' h ∙ lives, ends)

calls-live :
    (etw : Bool) (interval : ℕ) (t : Timers) (turn : Turn)
    → live (if etw then turn_calls interval t turn else plain_calls turn) (up Phase.running etw)
      ≡ some (up (phase_after turn.exit) etw)
calls-live true interval t turn = turn_calls-live interval t turn.now turn.exit turn.exit_qpc
calls-live false interval t turn = plain_calls-live turn.now turn.exit turn.exit_qpc

module _ (etw : Bool) (interval : ℕ) where
  turn-IsOrderly :
      (exit : Option ℕ) (calls : List Call) (rest : Outcome)
      → live calls (up Phase.running etw) ≡ some (up (phase_after exit) etw)
      → IsOrderlyFrom (up Phase.running etw) rest
      → IsOrderlyFrom (up Phase.running etw) (go_on etw calls rest exit)
  unfolding go_on
  turn-IsOrderly none calls (code, rest) h more =
      prefix-IsOrderly calls (up Phase.running etw) (up Phase.running etw) code rest h more
  turn-IsOrderly (some e) calls rest h more =
      prefix-IsOrderly calls (up Phase.running etw) (up Phase.ended etw) (some e) (last_calls etw e)
        h
        (
          record { phase = Phase.closed; has_pipe = false; has_session = false },
          last_calls-live etw e,
          refl,
        )

  -- Nothing the system answers in the loop lets it leave the order.
  render_loop-IsOrderly :
      (turns : List Turn) (t : Timers)
      → IsOrderlyFrom (up Phase.running etw) (render_loop etw interval t turns)
  unfolding render_loop live
  render_loop-IsOrderly [] t = (up Phase.running etw, refl, refl)
  render_loop-IsOrderly (turn ∷ turns) t =
      let t' = if etw then next_timers interval t turn.now else t in
      turn-IsOrderly turn.exit _ (render_loop etw interval t' turns)
        (calls-live etw interval t turn) (render_loop-IsOrderly turns t')

-- The session runs behind these calls if and only if the launcher takes it to run.
start_calls-live :
    (use_etw skip starts : Bool)
    → live
        (start_calls use_etw skip starts)
        (record { phase = Phase.loaded; has_pipe = true; has_session = false })
      ≡ some (record {
        phase = Phase.loaded;
        has_pipe = true;
        has_session = etw_running use_etw skip starts;
      })
unfolding start_calls live
start_calls-live false skip starts = refl
start_calls-live true true starts = refl
start_calls-live true false true = refl
start_calls-live true false false = refl

module _ (a : Answers) (o : Options) where
  run_child-IsOrderly :
      (skip : Bool) (injected : Option InjectError)
      → IsOrderlyFrom
          (record { phase = Phase.suspended; has_pipe = true; has_session = false })
          (run_child a o skip injected)
  unfolding run_child live
  run_child-IsOrderly skip (some error) =
      (record { phase = Phase.closed; has_pipe = true; has_session = false }, refl, refl)
  run_child-IsOrderly skip none =
      let etw = etw_running o.use_etw skip a.starts_etw in
      let loaded : Life = record { phase = Phase.loaded; has_pipe = true; has_session = false } in
      prefix-IsOrderly (start_calls o.use_etw skip a.starts_etw) loaded
        (record loaded { has_session = etw }) _ _ (start_calls-live o.use_etw skip a.starts_etw)
        (if_both (IsOrderlyFrom (up Phase.running etw)) a.connects
          (render_loop-IsOrderly etw o.etw_rundown_ms a.turns
            (record { last_rundown = a.started_at; last_stats = 0 }))
          (up Phase.running etw, refl, refl))

  inject_and_run-IsOrderly :
      (skip : Bool)
      → IsOrderlyFrom
          (record { phase = Phase.suspended; has_pipe = true; has_session = false })
          (inject_and_run a o skip)
  unfolding inject_and_run live
  inject_and_run-IsOrderly skip =
      if_both (IsOrderlyFrom _) (waits_forever a o)
        (record { phase = Phase.suspended; has_pipe = true; has_session = false }, refl, refl)
        (run_child-IsOrderly skip (inject_dll a.injected a.dll_path).0)

  create_target-IsOrderly :
      (elevated_by : ℕ) (skip : Bool) (name : Option Wide)
      → IsOrderly (create_target a o elevated_by skip name)
  unfolding create_target live
  create_target-IsOrderly elevated_by skip none = (record before { has_pipe = true }, refl, refl)
  create_target-IsOrderly elevated_by skip (some name) =
      if_both IsOrderly (not a.has_child) (record before { has_pipe = true }, refl, refl)
        (inject_and_run-IsOrderly skip)

  launch_target-IsOrderly :
      (elevated_by : ℕ) (skip : Bool) → IsOrderly (launch_target a o elevated_by skip)
  unfolding launch_target
  launch_target-IsOrderly elevated_by skip = create_target-IsOrderly elevated_by skip a.pipe_name

  waited : (code : Option ℕ) → IsOrderly (code, relaunch ∷ [])
  unfolding live
  waited none = (before, refl, refl)
  waited (some code) = (before, refl, refl)

  relaunched-IsOrderly : (elevated_by : ℕ) (r : Result) → IsOrderly (relaunched a o elevated_by r)
  unfolding relaunched live
  relaunched-IsOrderly elevated_by Result.ok = waited a.elevated_code
  relaunched-IsOrderly elevated_by Result.declined = launch_target-IsOrderly elevated_by true
  relaunched-IsOrderly elevated_by Result.failed = launch_target-IsOrderly elevated_by true

  run_options-IsOrderly : (elevated_by : ℕ) → IsOrderly (run_parsed a elevated_by (options o))
  unfolding run_parsed live
  run_options-IsOrderly elevated_by =
      if_both IsOrderly (not a.has_dll) (before, refl, refl)
        (if_both IsOrderly (not a.has_target) (before, refl, refl)
          (if_both IsOrderly (wants_elevation a o elevated_by)
            (relaunched-IsOrderly elevated_by (launch a.launched))
            (launch_target-IsOrderly elevated_by false)))

run_command_line-IsOrderly : (a : Answers) (c : CommandLine) → IsOrderly (run_command_line a c)
unfolding run_command_line run_parsed live
run_command_line-IsOrderly a gone = (before, refl, refl)
run_command_line-IsOrderly a (runs elevated_by (usage error)) = (before, refl, refl)
run_command_line-IsOrderly a (runs elevated_by (options o)) = run_options-IsOrderly a o elevated_by

-- Whatever the arguments and the system's answers, the calls of wmain are in order. The target is created
-- suspended behind the pipe, once at most; it is resumed if the DLL was loaded into it, and terminated if
-- not; the ETW session is started before the target is resumed, and stopped behind its end; polls, ticks
-- and rundowns need the session; and when wmain returns, the target is not there or its handles are
-- closed, with no session left. Where it does not return, it waits for the elevated instance before it
-- has made a pipe, for LoadLibraryW in the suspended target, or for the target that runs.
pub wmain-IsOrderly : (a : Answers) (args : List Wide) → IsOrderly (wmain a args)
unfolding wmain
wmain-IsOrderly a args = run_command_line-IsOrderly a (parse_args a.begins args)
