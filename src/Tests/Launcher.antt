-- ===== src/Tests/Launcher.antt =====
-- The launcher's theorems at concrete inputs (src/launcher).
use Prim.Native.Nat.{Ordering}
use dx12track.Prelude.{
  ◌≡◌, refl, false, lists_eq, List, [], ◌∷◌, ◌++◌, none, some, arith, ltb, if◌then◌else◌,
}
use dx12track.Json.{codes}
use dx12track.Wide.{Wide}
use dx12track.Launcher.Args.{
  Token, token_of, parse_from, default_options, options, usage, no_target,
}
use dx12track.Launcher.Args.RoundTrip.{
  Flag, AreAllowed, ask_all, print_all, parse_from-print_all, parse_from-dashes,
}
use dx12track.Launcher.Environment.{block_of, close_each}
use dx12track.Launcher.Handoff.{
  Original, Memory, Session, Mapping, switch_console, forward_all, forward, append_out, console_own,
  layout, hand_over, no_session, open_handoff, reserve,
}
use dx12track.Launcher.Handoff.RoundTrip.{Receives, open_handoff-hand_over}
use dx12track.Launcher.Wait.{Poll, WaitResult, announce, output, exited, wait, wait-forward_all}
use dx12track.Launcher.Handoff.Forwarding.{printed, printed-forward_all}

-- A comparison that tells letters by their codes alone.
abbrev lex : Wide → Wide → Ordering
lex [] [] = Ordering.eq
lex [] (d ∷ b) = Ordering.lt
lex (c ∷ a) [] = Ordering.gt
lex (c ∷ a) (d ∷ b) = if ltb c d then Ordering.lt else if ltb d c then Ordering.gt else lex a b

abbrev entries : List Wide
unfolding codes
entries = codes "PATH=C:\\bin" ∷ codes "DX12TRACK_PIPE=old" ∷ codes "=C:=C:\\" ∷ []

abbrev vars : List (Wide × Wide)
unfolding codes
vars = (codes "DX12TRACK_PIPE", codes "p") ∷ (codes "DX12TRACK_VERBOSE", codes "1") ∷ []

target_of_exe : token_of (codes "a.exe") ≡ Token.target
unfolding token_of codes lists_eq
target_of_exe = refl

abbrev blank : Memory
blank o = 0

abbrev first_launcher : Original
unfolding codes
first_launcher = record { cwd = codes "C:\\x"; sid = codes "S-1"; env = some entries }

open_handoff-hand_over_example :
    Receives first_launcher
      (open_handoff (some (200_000, hand_over first_launcher blank)) no_session)
unfolding layout reserve block_of close_each codes
open_handoff-hand_over_example =
    open_handoff-hand_over first_launcher blank 200_000 (omega arith) (omega arith)

abbrev mapping : Mapping
mapping = record (hand_over first_launcher blank) {
  hdr = record (layout first_launcher) { out_cap = 4 };
}

abbrev session : Session
session = record no_session { mapping = some mapping }

-- The second text is cut off.
printed-forward_all_example :
    printed
      (forward_all ((97 ∷ 98 ∷ []) ∷ (99 ∷ 100 ∷ 101 ∷ []) ∷ []) (switch_console false session))
    ≡ 97 ∷ 98 ∷ 99 ∷ 100 ∷ []
unfolding layout
printed-forward_all_example =
    printed-forward_all ((97 ∷ 98 ∷ []) ∷ (99 ∷ 100 ∷ 101 ∷ []) ∷ []) session mapping (omega arith)
      refl refl

abbrev flags : List Flag
unfolding codes
flags = Flag.etw ∷ Flag.output (codes "--x") ∷ Flag.rundown 86_400 ∷ []

flags-AreAllowed : AreAllowed flags
unfolding flags
flags-AreAllowed = (tt, (tt, ((omega arith, omega arith), tt)))

-- The target's own arguments look like flags.
parse_from-print_all_example :
    parse_from (print_all flags (codes "a.exe" ∷ codes "-o" ∷ [])) default_options
    ≡ options (record (ask_all flags default_options) {
      target = codes "a.exe";
      child_args = codes "-o" ∷ [];
    })
unfolding codes
parse_from-print_all_example =
    parse_from-print_all flags 97 (46 ∷ 101 ∷ 120 ∷ 101 ∷ []) (codes "-o" ∷ []) default_options
      flags-AreAllowed target_of_exe

parse_from-dashes_example :
    parse_from (print_all flags (codes "--" ∷ codes "a.exe" ∷ [])) default_options ≡ usage no_target
parse_from-dashes_example = parse_from-dashes flags (codes "a.exe" ∷ []) flags-AreAllowed

-- The elevated instance has a console of its own, as the second turn sees, and ends in the third.
abbrev polls : List Poll
polls =
    record { state = 0; wait = WaitResult.timeout }
    ∷ record { state = 2; wait = WaitResult.timeout }
    ∷ []

abbrev last_poll : Poll
last_poll = record { state = 2; wait = WaitResult.object_0 }

-- The mapping behind both texts.
abbrev filled : Mapping
filled = append_out (99 ∷ 100 ∷ 101 ∷ []) (
    append_out (97 ∷ 98 ∷ [])
      (record mapping { hdr = record mapping.hdr { console_state = console_own } }))

wait-forward_all_example :
    (wait (polls ++ last_poll ∷ []) filled (some 3)
      ≡ (some 3, announce ∷ output (97 ∷ 98 ∷ 99 ∷ 100 ∷ []) ∷ exited 3 ∷ []))
    × ((wait polls filled (some 3)).0 ≡ none)
unfolding layout forward_all forward switch_console
wait-forward_all_example =
    wait-forward_all polls last_poll [] ((97 ∷ 98 ∷ []) ∷ (99 ∷ 100 ∷ 101 ∷ []) ∷ []) session
      mapping filled (some 3) (refl, (refl, tt)) (λ e. cc) (omega arith) refl refl refl
