-- ===== src/Launcher/Inject/Clean.antt =====
-- What the injection leaves in the target (src/launcher/Injector.cpp).
use dx12track.Prelude.{
  ℕ, ◌≡◌, Bool, true, false, ◌&&◌, List, [], ◌∷◌, Option, none, some, nonzero, ◌==◌, if◌then◌else◌,
}
use dx12track.Wide.{Wide}
use dx12track.Launcher.Inject.{
  InjectAnswers, InjectError, InjectCall, alloc, write, create_thread, wait_thread, close_thread,
  free, InjectionResult, path_bytes, wrote_all,
}

-- The memory that is held in the target, not written yet or written, and the thread whose handle is open.
pub data Remote : Type 0 where
  clean : Remote
  area filled threaded : ℕ → Remote

abbrev allow : InjectCall → Remote → Option Remote
allow (alloc true n) clean = some (area n)
allow (alloc false n) clean = some clean
allow (write n) (area m) = if n == m then some (filled m) else none
allow (create_thread true) (filled m) = some (threaded m)
allow (create_thread false) (filled m) = some (filled m)
allow wait_thread (threaded m) = some (threaded m)
allow close_thread (threaded m) = some (filled m)
allow free (area m) = some clean
allow free (filled m) = some clean
allow _ _ = none

unfoldable pub leaves : List InjectCall → Remote → Option Remote
leaves [] r = some r
leaves (c ∷ cs) r = elim (allow c r) [ none ↦ none | some r' ↦ leaves cs r' ]

-- The path's area is freed and the thread's handle closed, each once.
abbrev IsClean : InjectionResult → Type 0
IsClean (error, calls) = leaves calls clean ≡ some clean

abbrev ended_well : Option ℕ → Bool
ended_well none = false
ended_well (some exit_code) = nonzero exit_code

-- Every step succeeds, and LoadLibraryW answers a module.
abbrev pub loads : InjectAnswers → Wide → Bool
loads a dll_path =
    a.has_kernel32
    && (a.has_load_library
        && (a.has_remote
            && (wrote_all a.written (path_bytes dll_path)
                && (a.has_thread && ended_well a.exit_code))))

abbrev is_ok : Option InjectError → Bool
is_ok none = true
is_ok (some error) = false

abbrev pub Injects : InjectAnswers → Wide → InjectionResult → Type 0
Injects a dll_path r = (is_ok r.0 ≡ loads a dll_path) × IsClean r
