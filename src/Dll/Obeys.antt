-- ===== src/Dll/Obeys.antt =====
-- The launcher's options reach the DLL over the target's environment (src/launcher/Main.cpp,
-- src/dll/DllMain.cpp).
use mathlib.Core.Path.{subst}
use dx12track.Prelude.{
  ◌≡◌, ◌∙◌, sym, if_both, refl, Bool, true, false, List, [], ◌∷◌, ◌++◌, Option, none, some,
  lists_eq, if◌then◌else◌,
}
use dx12track.Json.{codes}
use dx12track.Wide.{Wide}
use dx12track.Launcher.Args.{Options}
use dx12track.Launcher.Main.{child_env, flag}
use dx12track.Dll.{
  Call, init_clock, wait_for_debugger, connect_pipe, open_log, send_hello, diag, enumerate_modules,
  register_modules, install_hooks, Settings, read_settings, attach, Environment, Globals, env_w,
  is_given, is_one, when, start_module_tracking, on_attach,
}

-- The environment has each of the variables.
abbrev pub Inherits : Environment → List (Wide × Wide) → Type 0
Inherits get [] = Unit
Inherits get ((name, value) ∷ vars) = (get name ≡ some value) × Inherits get vars

abbrev pub given : Wide → Option Wide
given [] = none
given (c ∷ s) = some (c ∷ s)

abbrev or_else : Option Wide → Option Wide → Option Wide
or_else none b = b
or_else (some a) b = some a

abbrev pipe_call : Call → Option Wide
pipe_call (connect_pipe name) = some name
pipe_call _ = none

abbrev log_call : Call → Option Wide
log_call (open_log path) = some path
log_call _ = none

abbrev wait_call : Call → Option Wide
wait_call wait_for_debugger = some []
wait_call _ = none

abbrev enumerate_call : Call → Option Wide
enumerate_call enumerate_modules = some []
enumerate_call _ = none

-- The first call of a kind, with its text.
unfoldable pub first : (Call → Option Wide) → List Call → Option Wide
first f [] = none
first f (c ∷ cs) = or_else (f c) (first f cs)

abbrev when_some : Bool → Option Wide
when_some b = if b then some [] else none

-- What the DLL does with some settings.
pub record Obeys (s : Settings) (g : Globals) (calls : List Call) : Type 0 where
  pub callstacks : g.capture_callstacks ≡ s.callstacks
  pub verbose : g.is_verbose ≡ s.verbose
  pub pipe : first pipe_call calls ≡ given s.pipe_name
  pub log : first log_call calls ≡ given s.json_path
  pub waits : first wait_call calls ≡ when_some s.waits
  pub modules : first enumerate_call calls ≡ when_some s.callstacks

module _ (f : Call → Option Wide) (cs : List Call) where
  first-skip : (b : Bool) (c : Call) → f c ≡ none → first f (when b (c ∷ []) ++ cs) ≡ first f cs
  unfolding first
  first-skip true c e = rw (first, e) refl
  first-skip false c e = refl

  first-given :
      (c : Wide → Call) (v : Wide)
      → ((u : Wide) → f (c u) ≡ some u)
      → first f cs ≡ none
      → first f (when (is_given v) (c v ∷ []) ++ cs) ≡ given v
  unfolding first
  first-given c [] e n = n
  first-given c (u ∷ v) e n = rw (first, e (u ∷ v)) refl

  first-flag :
      (b : Bool) (c : Call)
      → f c ≡ some []
      → first f cs ≡ none
      → first f (when b (c ∷ []) ++ cs) ≡ when_some b
  unfolding first
  first-flag true c e n = rw (first, e) refl
  first-flag false c e n = n

-- Calls behind hello tell neither the pipe nor the log.
abbrev last_part : Bool → Bool → Bool → List Call
last_part verbose callstacks registers =
    send_hello
    ∷ (when verbose (diag ∷ [])
        ++ (when callstacks (enumerate_modules ∷ when registers (register_modules ∷ []))
            ++ install_hooks ∷ when verbose (diag ∷ [])))

pub record IsLast (callstacks : Bool) (calls : List Call) : Type 0 where
  pub pipe : first pipe_call calls ≡ none
  pub log : first log_call calls ≡ none
  pub waits : first wait_call calls ≡ none
  pub modules : first enumerate_call calls ≡ when_some callstacks

last_part-IsLast :
    (verbose callstacks registers : Bool)
    → IsLast callstacks (last_part verbose callstacks registers)
unfolding first
last_part-IsLast true true true = record { pipe = refl; log = refl; waits = refl; modules = refl }
last_part-IsLast true true false = record { pipe = refl; log = refl; waits = refl; modules = refl }
last_part-IsLast true false registers = record {
  pipe = refl;
  log = refl;
  waits = refl;
  modules = refl;
}
last_part-IsLast false true true = record { pipe = refl; log = refl; waits = refl; modules = refl }
last_part-IsLast false true false = record { pipe = refl; log = refl; waits = refl; modules = refl }
last_part-IsLast false false registers = record {
  pipe = refl;
  log = refl;
  waits = refl;
  modules = refl;
}

first_part-Obeys :
    (s : Settings) (g : Globals) (calls : List Call)
    → g.capture_callstacks ≡ s.callstacks
    → g.is_verbose ≡ s.verbose
    → IsLast s.callstacks calls
    → Obeys s g (
        init_clock
        ∷ (when s.waits (wait_for_debugger ∷ [])
            ++ (when (is_given s.pipe_name) (connect_pipe s.pipe_name ∷ [])
                ++ (when (is_given s.json_path) (open_log s.json_path ∷ []) ++ calls))))
unfolding first
first_part-Obeys s g calls c v l = record {
  callstacks = c;
  verbose = v;
  pipe =
      first-skip pipe_call _ s.waits wait_for_debugger refl
      ∙ first-given pipe_call _ connect_pipe s.pipe_name (λ u. refl)
          (first-skip pipe_call calls (is_given s.json_path) (open_log s.json_path) refl ∙ l.pipe);
  log =
      first-skip log_call _ s.waits wait_for_debugger refl
      ∙ (first-skip log_call _ (is_given s.pipe_name) (connect_pipe s.pipe_name) refl
          ∙ first-given log_call calls open_log s.json_path (λ u. refl) l.log);
  waits = first-flag wait_call _ s.waits wait_for_debugger refl (
      first-skip wait_call _ (is_given s.pipe_name) (connect_pipe s.pipe_name) refl
      ∙ (first-skip wait_call calls (is_given s.json_path) (open_log s.json_path) refl ∙ l.waits));
  modules =
      first-skip enumerate_call _ s.waits wait_for_debugger refl
      ∙ (first-skip enumerate_call _ (is_given s.pipe_name) (connect_pipe s.pipe_name) refl
          ∙ (first-skip enumerate_call calls (is_given s.json_path) (open_log s.json_path) refl
              ∙ l.modules));
}

attach-Obeys :
    (s : Settings) (registers : Bool) (g : Globals)
    → g.started ≡ false
    → Obeys s (attach s registers g).0 (attach s registers g).1
unfolding attach start_module_tracking
attach-Obeys s registers g new = rw new (
    first_part-Obeys s _ (last_part s.verbose s.callstacks registers)
      (if_both (λ (x : Globals). x.capture_callstacks ≡ s.callstacks) s.callstacks refl refl)
      (if_both (λ (x : Globals). x.is_verbose ≡ s.verbose) s.callstacks refl refl)
      (last_part-IsLast s.verbose s.callstacks registers))

-- What the options of the launcher and the name of its pipe ask for.
abbrev pub settings_of : Wide → Options → Settings
settings_of pipe_name o = record {
  pipe_name = pipe_name;
  json_path = o.jsonl_path;
  callstacks = o.callstacks;
  verbose = o.verbose;
  waits = o.wait_debugger;
}

env_w-some :
    (get : Environment) (name value : Wide) → get name ≡ some value → env_w get name ≡ value
unfolding env_w
env_w-some get name value e = rw (env_w, e) refl

is_one-flag : (b : Bool) → is_one (flag b) ≡ b
unfolding lists_eq
is_one-flag true = refl
is_one-flag false = refl

read_settings-child_env :
    (o : Options) (pipe_name : Wide) (get : Environment)
    → Inherits get (child_env pipe_name o)
    → read_settings get ≡ settings_of pipe_name o
unfolding read_settings child_env codes
read_settings-child_env o pipe_name get (p, (j, (c, (v, (w, _))))) =
    rw
      (
        read_settings,
        env_w-some get (codes "DX12TRACK_PIPE") pipe_name p,
        env_w-some get (codes "DX12TRACK_JSON") o.jsonl_path j,
        env_w-some get (codes "DX12TRACK_CALLSTACKS") (flag o.callstacks) c,
        env_w-some get (codes "DX12TRACK_VERBOSE") (flag o.verbose) v,
        env_w-some get (codes "DX12TRACK_WAIT_DEBUGGER") (flag o.wait_debugger) w,
        is_one-flag o.callstacks,
        is_one-flag o.verbose,
        is_one-flag o.wait_debugger,
      )
      refl

-- The DLL, in a target that has the launcher's variables, and with module tracking not started yet: it
-- captures callstacks, is verbose, waits for the debugger and lists the modules as the launcher's options
-- say, it connects to the launcher's pipe, and it opens the log of the options; an empty name is none.
pub on_attach-Obeys :
    (o : Options) (pipe_name : Wide) (get : Environment) (registers : Bool) (g : Globals)
    → g.started ≡ false
    → Inherits get (child_env pipe_name o)
    → Obeys (settings_of pipe_name o) (on_attach get registers g).0 (on_attach get registers g).1
unfolding on_attach
on_attach-Obeys o pipe_name get registers g new inherits =
    let asked = settings_of pipe_name o in
    subst (λ s. Obeys asked (attach s registers g).0 (attach s registers g).1)
      (sym (read_settings-child_env o pipe_name get inherits)) (attach-Obeys asked registers g new)
