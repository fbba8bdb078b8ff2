-- ===== src/Launcher/Main/Loop.antt =====
-- The render loop's end and its timing (src/launcher/Main.cpp).
use dx12track.Prelude.{
  ℕ, ◌+◌, ◌^◌, ◌≤◌, ◌<◌, ◌≡◌, refl, Bool, true, false, List, [], ◌∷◌, ◌++◌, Option, none, some,
  arith, if◌then◌else◌,
}
use dx12track.Launcher.Main.{
  Call, poll_child, request_rundown, get_stats, etw_tick, render, Turn, Outcome, Timers, when,
  rundown_due, stats_due, next_timers, turn_calls, plain_calls, last_calls, go_on, render_loop,
}

-- The times at which the calls ask for a rundown: PollChild begins a turn.
unfoldable pub rundown_times : List Call → ℕ → List Turn → List ℕ
rundown_times [] now turns = []
rundown_times (poll_child ∷ cs) now [] = []
rundown_times (poll_child ∷ cs) now (turn ∷ turns) = rundown_times cs turn.now turns
rundown_times (request_rundown ∷ cs) now turns = now ∷ rundown_times cs now turns
rundown_times (_ ∷ cs) now turns = rundown_times cs now turns

times-timed :
    (rundown stats : Bool) (now : ℕ) (turns : List Turn) (rest : List Call)
    → rundown_times
        ((when rundown (request_rundown ∷ [])
            ++ (when stats (get_stats ∷ []) ++ etw_tick ∷ render ∷ []))
          ++ rest)
        now
        turns
      ≡ (if rundown then now ∷ rundown_times rest now turns else rundown_times rest now turns)
unfolding rundown_times
times-timed true true now turns rest = refl
times-timed true false now turns rest = refl
times-timed false true now turns rest = refl
times-timed false false now turns rest = refl

times-turn_calls :
    (interval : ℕ) (t : Timers) (now : ℕ) (exit qpc : Option ℕ) (from : ℕ) (turns : List Turn)
    (rest : List Call)
    → let turn : Turn = record { now = now; exit = exit; exit_qpc = qpc } in
      rundown_times (turn_calls interval t turn ++ rest) from (turn ∷ turns) ≡ (
        if rundown_due interval t now
        then now ∷ rundown_times rest now turns
        else rundown_times rest now turns)
unfolding rundown_times turn_calls
times-turn_calls interval t now none qpc from turns rest =
    times-timed (rundown_due interval t now) (stats_due t now) now turns rest
times-turn_calls interval t now (some code) none from turns rest =
    times-timed (rundown_due interval t now) (stats_due t now) now turns rest
times-turn_calls interval t now (some code) (some q) from turns rest =
    times-timed (rundown_due interval t now) (stats_due t now) now turns rest

times-last_calls :
    (etw : Bool) (code now : ℕ) (turns : List Turn)
    → rundown_times (last_calls etw code) now turns ≡ []
unfolding rundown_times last_calls
times-last_calls true code now turns = refl
times-last_calls false code now turns = refl

-- Without an ETW session there is none.
times-go_on_plain :
    (now : ℕ) (exit qpc : Option ℕ) (rest : Outcome) (from : ℕ) (turns : List Turn)
    → rundown_times rest.1 from turns ≡ []
    → let turn : Turn = record { now = now; exit = exit; exit_qpc = qpc } in
      rundown_times (go_on false (plain_calls turn) rest exit).1 from turns ≡ []
unfolding rundown_times plain_calls go_on last_calls
times-go_on_plain now none qpc rest from turns h = h
times-go_on_plain now (some code) qpc rest from turns h = refl

times-plain :
    (interval : ℕ) (t : Timers) (turns : List Turn) (from : ℕ) (later : List Turn)
    → rundown_times (render_loop false interval t turns).1 from later ≡ []
unfolding rundown_times render_loop
times-plain interval t [] from later = refl
times-plain interval t (turn ∷ turns) from later =
    times-go_on_plain turn.now turn.exit turn.exit_qpc (render_loop false interval t turns) from
      later (times-plain interval t turns from later)

-- The times of the turns, from a time on, none of them behind an end.
abbrev pub AreTimes : ℕ → ℕ → List Turn → Type 0
AreTimes from end [] = from ≤ end
AreTimes from end (turn ∷ turns) = (from ≤ turn.now) × AreTimes turn.now end turns

module _ (interval end : ℕ) (small : end < 2 ^ 64) where
  -- There is an interval, and it lies between any two that follow each other, and before the first.
  abbrev pub AreApart : ℕ → List ℕ → Type 0
  AreApart last [] = Unit
  AreApart last (time ∷ times) = (1 ≤ interval) × (last + interval ≤ time) × AreApart time times

  step-AreApart :
      (due : Bool) (last now : ℕ) (times : List ℕ)
      → (due ≡ true → (1 ≤ interval) × (last + interval ≤ now))
      → AreApart (if due then now else last) times
      → AreApart last (if due then now ∷ times else times)
  step-AreApart true last now times h p = ((h refl).0, (h refl).1, p)
  step-AreApart false last now times h p = p

  rundown_due_lem :
      (t : Timers) (now : ℕ)
      → t.last_rundown ≤ now
      → now ≤ end
      → rundown_due interval t now ≡ true
      → (1 ≤ interval) × (t.last_rundown + interval ≤ now)
  unfolding rundown_due
  rundown_due_lem t now lo hi h = ground arith

  turn-AreApart :
      (t : Timers) (turn : Turn) (turns : List Turn) (from : ℕ) (rest : List Call)
      → t.last_rundown ≤ turn.now
      → turn.now ≤ end
      → AreApart (next_timers interval t turn.now).last_rundown (rundown_times rest turn.now turns)
      → AreApart t.last_rundown
          (rundown_times (turn_calls interval t turn ++ rest) from (turn ∷ turns))
  unfolding next_timers
  turn-AreApart t turn turns from rest lo hi p =
      rw (times-turn_calls interval t turn.now turn.exit turn.exit_qpc from turns rest) (
        step-AreApart (rundown_due interval t turn.now) t.last_rundown turn.now
          (rundown_times rest turn.now turns) (rundown_due_lem t turn.now lo hi) p)

  go_on-AreApart :
      (t : Timers) (turn : Turn) (turns : List Turn) (from : ℕ) (rest : Outcome) (exit : Option ℕ)
      → t.last_rundown ≤ turn.now
      → turn.now ≤ end
      → AreApart
          (next_timers interval t turn.now).last_rundown
          (rundown_times rest.1 turn.now turns)
      → AreApart t.last_rundown
          (rundown_times (go_on true (turn_calls interval t turn) rest exit).1 from (turn ∷ turns))
  unfolding go_on
  go_on-AreApart t turn turns from rest none lo hi p =
      turn-AreApart t turn turns from rest.1 lo hi p
  go_on-AreApart t turn turns from rest (some e) lo hi p =
      turn-AreApart t turn turns from (last_calls true e) lo hi
        (rw (times-last_calls true e turn.now turns) tt)

  AreTimes-le : (from : ℕ) (turns : List Turn) → AreTimes from end turns → from ≤ end
  AreTimes-le from [] h = h
  AreTimes-le from (turn ∷ turns) (h, hs) = omega (arith, h, AreTimes-le turn.now turns hs)

  next_rundown_le :
      (t : Timers) (now : ℕ)
      → t.last_rundown ≤ now
      → (next_timers interval t now).last_rundown ≤ now
  unfolding next_timers
  next_rundown_le t now h = ground arith

  -- However long the loop runs, where its clock does not run backwards and stays below 2^64: without an
  -- interval it asks for no rundown, and with one, each rundown is asked for an interval at least
  -- after the one before, and the first one an interval at least after the loop's start.
  pub render_loop-AreApart :
      (etw : Bool) (turns : List Turn) (t : Timers) (from : ℕ)
      → t.last_rundown ≤ from
      → AreTimes from end turns
      → AreApart t.last_rundown (rundown_times (render_loop etw interval t turns).1 from turns)
  unfolding render_loop rundown_times
  render_loop-AreApart false turns t from lo h = rw (times-plain interval t turns from turns) tt
  render_loop-AreApart true [] t from lo h = tt
  render_loop-AreApart true (turn ∷ turns) t from lo (h, hs) =
      let t' = next_timers interval t turn.now in
      go_on-AreApart t turn turns from (render_loop true interval t' turns) turn.exit (omega arith)
        (AreTimes-le turn.now turns hs)
        (render_loop-AreApart true turns t' turn.now (next_rundown_le t turn.now (omega arith)) hs)
