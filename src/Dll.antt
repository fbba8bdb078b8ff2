-- ===== src/Dll.antt =====
-- The DLL's entry points (src/dll/DllMain.cpp, PublicApi.cpp, and the start and stop of Modules.cpp) as the
-- calls that they make on the pipe, the log, the hooks and the module tracking. What the environment and
-- the other parts answer is an argument.
pub mod Obeys
pub mod Pdb
pub mod Tracking
use dx12track.Prelude.{
  ℕ, ◌+◌, Bool, true, false, not, ◌&&◌, List, [], ◌∷◌, ◌++◌, Option, none, some, lists_eq,
  if◌then◌else◌,
}
use dx12track.Json.{codes}
use dx12track.Wide.{Wide}

pub data Call : Type 0 where
  init_clock wait_for_debugger : Call
  connect_pipe open_log : Wide → Call
  send_hello diag enumerate_modules register_modules : Call
  install_hooks send_goodbye unregister_modules remove_hooks close_pipe close_log : Call

abbrev pub Environment : Type 0
Environment = Wide → Option Wide

-- EnvW
unfoldable pub env_w : Environment → Wide → Wide
env_w get name = elim (get name) [ none ↦ [] | some value ↦ value ]

-- g_capture_callstacks, g_verbose, g_started of Modules.cpp, and whether g_cookie is set.
pub record Globals : Type 0 where
  pub capture_callstacks : Bool
  pub is_verbose : Bool
  pub started : Bool
  pub has_cookie : Bool

abbrev pub fresh : Globals
fresh = record {
  capture_callstacks = false;
  is_verbose = false;
  started = false;
  has_cookie = false;
}

abbrev pub is_given : Wide → Bool
is_given [] = false
is_given (c ∷ s) = true

abbrev pub is_one : Wide → Bool
is_one v = lists_eq v (49 ∷ [])

abbrev pub when : Bool → List Call → List Call
when true calls = calls
when false calls = []

-- StartModuleTracking; `registers`: ntdll has the functions, and the registration gives a cookie.
unfoldable pub start_module_tracking : Bool → Globals → Globals × List Call
start_module_tracking registers g = if g.started then (g, []) else (
  record g { started = true; has_cookie = registers },
  enumerate_modules ∷ when registers (register_modules ∷ []),
)

-- StopModuleTracking
unfoldable pub stop_module_tracking : Globals → Globals × List Call
stop_module_tracking g =
    if g.has_cookie then (record g { has_cookie = false }, unregister_modules ∷ []) else (g, [])

-- What OnAttach reads.
pub record Settings : Type 0 where
  pub pipe_name : Wide
  pub json_path : Wide
  pub callstacks : Bool
  pub verbose : Bool
  pub waits : Bool

unfoldable pub read_settings : Environment → Settings
unfolding env_w codes lists_eq
read_settings get = record {
  pipe_name = env_w get (codes "DX12TRACK_PIPE");
  json_path = env_w get (codes "DX12TRACK_JSON");
  callstacks = is_one (env_w get (codes "DX12TRACK_CALLSTACKS"));
  verbose = is_one (env_w get (codes "DX12TRACK_VERBOSE"));
  waits = is_one (env_w get (codes "DX12TRACK_WAIT_DEBUGGER"));
}

-- The rest of OnAttach.
unfoldable pub attach : Settings → Bool → Globals → Globals × List Call
unfolding start_module_tracking
attach s registers g =
    let set : Globals = record g { capture_callstacks = s.callstacks; is_verbose = s.verbose } in
    let (tracking, tracked) = start_module_tracking registers set in
    (
      if s.callstacks then tracking else set,
      init_clock
          ∷ (when s.waits (wait_for_debugger ∷ [])
              ++ (when (is_given s.pipe_name) (connect_pipe s.pipe_name ∷ [])
                  ++ (when (is_given s.json_path) (open_log s.json_path ∷ [])
                      ++ send_hello
                        ∷ (when s.verbose (diag ∷ [])
                            ++ (when s.callstacks tracked
                                ++ install_hooks ∷ when s.verbose (diag ∷ [])))))),
    )

unfoldable pub on_attach : Environment → Bool → Globals → Globals × List Call
unfolding read_settings attach
on_attach get registers g = attach (read_settings get) registers g

-- OnDetach
unfoldable pub on_detach : Globals → Globals × List Call
unfolding stop_module_tracking
on_detach g =
    let (g', stopped) = stop_module_tracking g in
    (g', send_goodbye ∷ (stopped ++ remove_hooks ∷ close_pipe ∷ close_log ∷ []))

-- Dx12Track_StartLogging, with whether the log opens; no path is the null pointer.
unfoldable pub start_logging :
    Option Wide → Bool → Bool → Bool → Globals → Bool × (Globals × List Call)
unfolding start_module_tracking
start_logging none capture opens registers g = (false, (g, []))
start_logging (some []) capture opens registers g = (false, (g, []))
start_logging (some (c ∷ path)) capture opens registers g =
    let set : Globals = record g { capture_callstacks = capture } in
    let (tracking, tracked) = start_module_tracking registers set in
    if not opens then (false, (set, open_log (c ∷ path) ∷ [])) else (
      true,
      (if capture then tracking else set, open_log (c ∷ path) ∷ send_hello ∷ when capture tracked),
    )

-- Dx12Track_StopLogging
abbrev pub stop_logging : List Call
stop_logging = close_log ∷ []

-- What the process and its program ask of the DLL, in any order.
pub data Entry : Type 0 where
  attached : Environment → Bool → Entry
  logging : Option Wide → Bool → Bool → Bool → Entry
  logging_stopped detached : Entry

unfoldable pub enter : Entry → Globals → Globals × List Call
unfolding on_attach start_logging on_detach
enter (attached get registers) g = on_attach get registers g
enter (logging path capture opens registers) g = (start_logging path capture opens registers g).1
enter logging_stopped g = (g, stop_logging)
enter detached g = on_detach g

unfoldable pub enter_all : List Entry → Globals → Globals × List Call
unfolding enter
enter_all [] g = (g, [])
enter_all (e ∷ es) g =
    let (g', calls) = enter e g in let (g'', more) = enter_all es g' in (g'', calls ++ more)
