-- ===== src/Launcher/Args/RoundTrip.antt =====
-- Command lines that are written from options (src/launcher/Main.cpp) are read back.
use dx12track.Prelude.{
  ℕ, ◌*◌, ◌≤◌, ◌≡◌, refl, ◌∙◌, ap, true, not, ◌&&◌, nonzero, if◌then◌else◌, List, [], ◌∷◌, ◌++◌,
  some, arith, lists_eq,
}
use dx12track.Json.{codes, decimal}
use dx12track.Wide.{Wide, wcstoul, wcstoul-decimal, starts_digit, starts_digit-decimal}
use dx12track.Launcher.Args.{
  Options, usage, no_target, Token, token_of, rundown_seconds, max_rundown_seconds, set_rundown,
  rundown_without_etw, options, finish, parse_last, parse_from, default_options,
}

-- The flags as the usage lists them.
pub data Flag : Type 0 where
  output dump : Wide → Flag
  callstacks verbose debugger etw no_elevate : Flag
  rundown : ℕ → Flag

abbrev pub print : Flag → List Wide
unfolding codes
print (Flag.output path) = codes "-o" ∷ path ∷ []
print (Flag.dump path) = codes "--dump-console" ∷ path ∷ []
print Flag.callstacks = codes "--callstacks" ∷ []
print Flag.verbose = codes "--verbose" ∷ []
print Flag.debugger = codes "--debugger" ∷ []
print Flag.etw = codes "--etw" ∷ []
print Flag.no_elevate = codes "--no-elevate" ∷ []
print (Flag.rundown s) = codes "--etw-rundown" ∷ decimal s ∷ []

-- What a flag asks for.
abbrev pub asks : Flag → Options → Options
asks (Flag.output path) o = record o { jsonl_path = path }
asks (Flag.dump path) o = record o { dump_console_path = path }
asks Flag.callstacks o = record o { callstacks = true }
asks Flag.verbose o = record o { verbose = true }
asks Flag.debugger o = record o { wait_debugger = true }
asks Flag.etw o = record o { use_etw = true }
asks Flag.no_elevate o = record o { no_elevate = true }
asks (Flag.rundown s) o = record o { etw_rundown_ms = s * 1000 }

abbrev pub IsAllowed : Flag → Type 0
IsAllowed (Flag.rundown s) = (1 ≤ s) × (s ≤ max_rundown_seconds)
IsAllowed _ = Unit

abbrev pub AreAllowed : List Flag → Type 0
AreAllowed [] = Unit
AreAllowed (f ∷ fs) = IsAllowed f × AreAllowed fs

abbrev pub print_all : List Flag → List Wide → List Wide
print_all [] rest = rest
print_all (f ∷ fs) rest = print f ++ print_all fs rest

abbrev pub ask_all : List Flag → Options → Options
ask_all [] o = o
ask_all (f ∷ fs) o = ask_all fs (asks f o)

-- An argument that starts with a digit is neither empty nor like a flag.
rundown_seconds_exact :
    (v : Wide) (s : ℕ)
    → starts_digit v ≡ true
    → wcstoul v ≡ (s, [])
    → 1 ≤ s
    → s ≤ max_rundown_seconds
    → rundown_seconds v ≡ some s
unfolding rundown_seconds
rundown_seconds_exact [] s d e lo hi = cc
rundown_seconds_exact (c ∷ v) s d e lo hi = rw e (ground arith)

rundown_seconds-decimal :
    (s : ℕ) → 1 ≤ s → s ≤ max_rundown_seconds → rundown_seconds (decimal s) ≡ some s
rundown_seconds-decimal s lo hi =
    rundown_seconds_exact (decimal s) s (starts_digit-decimal s) (wcstoul-decimal s (omega arith))
      lo hi

parse_from-rundown :
    (a v : Wide) (rest : List Wide) (o : Options) (s : ℕ)
    → token_of a ≡ Token.rundown
    → rundown_seconds v ≡ some s
    → parse_from (a ∷ v ∷ rest) o ≡ parse_from rest (set_rundown s o)
unfolding parse_from
parse_from-rundown a v rest o s t e = rw (parse_from, t, e) refl

-- A flag is read, and the loop goes on behind it.
parse_from-flag :
    (f : Flag) (rest : List Wide) (o : Options)
    → IsAllowed f
    → parse_from (print f ++ rest) o ≡ parse_from rest (asks f o)
unfolding parse_from token_of lists_eq codes finish parse_last
parse_from-flag (Flag.output path) rest o h = refl
parse_from-flag (Flag.dump path) rest o h = refl
parse_from-flag Flag.callstacks [] o h = refl
parse_from-flag Flag.callstacks (a ∷ rest) o h = refl
parse_from-flag Flag.verbose [] o h = refl
parse_from-flag Flag.verbose (a ∷ rest) o h = refl
parse_from-flag Flag.debugger [] o h = refl
parse_from-flag Flag.debugger (a ∷ rest) o h = refl
parse_from-flag Flag.etw [] o h = refl
parse_from-flag Flag.etw (a ∷ rest) o h = refl
parse_from-flag Flag.no_elevate [] o h = refl
parse_from-flag Flag.no_elevate (a ∷ rest) o h = refl
parse_from-flag (Flag.rundown s) rest o (lo, hi) =
    parse_from-rundown (codes "--etw-rundown") (decimal s) rest o s refl
      (rundown_seconds-decimal s lo hi)
    ∙ ap (λ ms. parse_from rest (record o { etw_rundown_ms = ms })) (omega arith)

parse_from-flags :
    (fs : List Flag) (rest : List Wide) (o : Options)
    → AreAllowed fs
    → parse_from (print_all fs rest) o ≡ parse_from rest (ask_all fs o)
parse_from-flags [] rest o h = refl
parse_from-flags (f ∷ fs) rest o (h, hs) =
    parse_from-flag f (print_all fs rest) o h ∙ parse_from-flags fs rest (asks f o) hs

parse_from-target :
    (a : Wide) (rest : List Wide) (o : Options)
    → token_of a ≡ Token.target
    → parse_from (a ∷ rest) o ≡ finish rest (record o { target = a })
unfolding parse_from parse_last
parse_from-target a [] o t = rw (parse_from, parse_last, t) refl
parse_from-target a (v ∷ rest) o t = rw (parse_from, t) refl

-- The loop reads an option list that is written as the usage asks, with a target and the target's own
-- arguments behind it: where a rundown interval is asked for without --etw, wmain stops with the usage;
-- otherwise the options are those that the flags ask for in their order, a later one over an earlier
-- one, the target is that target, and the child's arguments are all that stands behind it, as they are.
pub parse_from-print_all :
    (fs : List Flag) (c : ℕ) (exe : Wide) (args : List Wide) (o : Options)
    → AreAllowed fs
    → token_of (c ∷ exe) ≡ Token.target
    → parse_from (print_all fs ((c ∷ exe) ∷ args)) o ≡ (
        let asked = ask_all fs o in
        if nonzero asked.etw_rundown_ms && not asked.use_etw
        then usage rundown_without_etw
        else options (record asked { target = c ∷ exe; child_args = args }))
unfolding finish
parse_from-print_all fs c exe args o h t =
    parse_from-flags fs ((c ∷ exe) ∷ args) o h ∙ parse_from-target (c ∷ exe) args (ask_all fs o) t

asks-target : (f : Flag) (o : Options) → (asks f o).target ≡ o.target
asks-target (Flag.output path) o = refl
asks-target (Flag.dump path) o = refl
asks-target Flag.callstacks o = refl
asks-target Flag.verbose o = refl
asks-target Flag.debugger o = refl
asks-target Flag.etw o = refl
asks-target Flag.no_elevate o = refl
asks-target (Flag.rundown s) o = refl

ask_all-target : (fs : List Flag) (o : Options) → (ask_all fs o).target ≡ o.target
ask_all-target [] o = refl
ask_all-target (f ∷ fs) o = ask_all-target fs (asks f o) ∙ asks-target f o

parse_from_dashes :
    (rest : List Wide) (o : Options)
    → o.target ≡ []
    → parse_from (codes "--" ∷ rest) o ≡ usage no_target
unfolding parse_from parse_last token_of lists_eq codes finish
parse_from_dashes [] o e = rw e refl
parse_from_dashes (v ∷ rest) o e = rw e refl

-- Behind flags and a "--" no target is found, whatever follows: wmain stops with the usage.
pub parse_from-dashes :
    (fs : List Flag) (rest : List Wide)
    → AreAllowed fs
    → parse_from (print_all fs (codes "--" ∷ rest)) default_options ≡ usage no_target
unfolding default_options
parse_from-dashes fs rest h =
    parse_from-flags fs (codes "--" ∷ rest) default_options h
    ∙ parse_from_dashes rest (ask_all fs default_options) (ask_all-target fs default_options)
