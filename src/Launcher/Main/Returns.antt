-- ===== src/Launcher/Main/Returns.antt =====
-- When wmain returns, and with which code (src/launcher/Main.cpp).
use dx12track.Prelude.{
  ◌⊎◌, ℕ, ◌≡◌, Bool, true, false, List, [], ◌∷◌, Option, none, some, if◌then◌else◌,
}
use dx12track.Wide.{Wide}
use dx12track.Launcher.Args.{build_command_line, Options}
use dx12track.Launcher.Main.{
  Call, resume, relaunch, create_pipe, create_child, child_env, Turn, Answers, Outcome,
}

-- The exit code of the target, if it ends in one of the turns.
abbrev pub first_exit : List Turn → Option ℕ
first_exit [] = none
first_exit (turn ∷ turns) = elim turn.exit [ none ↦ first_exit turns | some code ↦ some code ]

abbrev is_resume : Call → Bool
is_resume resume = true
is_resume _ = false

unfoldable pub resumes : List Call → Bool
resumes [] = false
resumes (c ∷ cs) = let rest = resumes cs in if is_resume c then true else rest

abbrev is_create : Call → Bool
is_create (create_child parent command_line env) = true
is_create _ = false

unfoldable pub creates : List Call → Bool
creates [] = false
creates (c ∷ cs) = let rest = creates cs in if is_create c then true else rest

abbrev is_relaunch : Call → Bool
is_relaunch relaunch = true
is_relaunch _ = false

unfoldable pub relaunches : List Call → Bool
relaunches [] = false
relaunches (c ∷ cs) = let rest = relaunches cs in if is_relaunch c then true else rest

-- A launcher that resumes the target returns the target's code once that has connected and ends. One that
-- does not resume it returns, but for two waits: behind a relaunch, without a target, for the elevated instance,
-- whose code it returns, and in the target that it has created, for a LoadLibraryW that does not end.
abbrev pub Returns : Answers → Outcome → Type 0
Returns a (code, calls) =
    if resumes calls
    then (code ≡ (if a.connects then first_exit a.turns else none))
    else ((c : ℕ) × (code ≡ some c))
    ⊎ (((relaunches calls ≡ true) × (creates calls ≡ false) × (code ≡ a.elevated_code))
        ⊎ ((creates calls ≡ true) × (a.load_returns ≡ false) × (code ≡ none)))

module _ (a : Answers) (o : Options) where
  -- The calls up to the creation of the target, and those behind it.
  abbrev created : Bool → Wide → Outcome → Outcome
  created parent name (code, calls) = (
    code,
    create_pipe
        ∷ create_child parent (build_command_line o.target o.child_args) (child_env name o)
        ∷ calls,
  )
