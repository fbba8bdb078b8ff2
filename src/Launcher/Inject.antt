-- ===== src/Launcher/Inject.antt =====
-- Loading the DLL into the suspended target (src/launcher/Injector.cpp). What the system answers is an
-- argument; the calls that touch the target are recorded.
pub mod Clean
use dx12track.Prelude.{
  ℕ, ◌+◌, ◌*◌, Bool, true, false, not, ◌||◌, ◌&&◌, List, [], ◌∷◌, Option, none, some, length,
  nonzero, ◌==◌, if◌then◌else◌,
}
use dx12track.Wide.{Wide}

pub data InjectError : Type 0 where
  no_kernel32 no_load_library no_remote not_written no_thread not_signaled returned_null :
      InjectError

-- `written` is what WriteProcessMemory wrote, if it succeeded; `exit_code` the low half of what
-- LoadLibraryW answers, if the thread ends in time.
pub record InjectAnswers : Type 0 where
  pub has_kernel32 : Bool
  pub has_load_library : Bool
  pub has_remote : Bool
  pub written : Option ℕ
  pub has_thread : Bool
  pub exit_code : Option ℕ

pub data InjectCall : Type 0 where
  alloc : Bool → ℕ → InjectCall
  write : ℕ → InjectCall
  create_thread : Bool → InjectCall
  wait_thread close_thread free : InjectCall

abbrev pub InjectionResult : Type 0
InjectionResult = Option InjectError × List InjectCall

abbrev pub path_bytes : Wide → ℕ
path_bytes dll_path = (length dll_path + 1) * 2

abbrev pub wrote_all : Option ℕ → ℕ → Bool
wrote_all none bytes = false
wrote_all (some written) bytes = written == bytes

-- Does the injection come as far as the wait for LoadLibraryW?
unfoldable pub reaches_wait : InjectAnswers → Wide → Bool
reaches_wait a dll_path =
    a.has_kernel32
    && (a.has_load_library
        && (a.has_remote && (wrote_all a.written (path_bytes dll_path) && a.has_thread)))

-- The wait for LoadLibraryW, and what comes behind it.
unfoldable pub wait_for_load : Option ℕ → InjectionResult
wait_for_load none =
    (some not_signaled, create_thread true ∷ wait_thread ∷ close_thread ∷ free ∷ [])
wait_for_load (some exit_code) = (
  if nonzero exit_code then none else some returned_null,
  create_thread true ∷ wait_thread ∷ close_thread ∷ free ∷ [],
)

unfoldable pub inject_dll : InjectAnswers → Wide → InjectionResult
unfolding wait_for_load
inject_dll a dll_path =
    let bytes = path_bytes dll_path in
    let (error, calls) = wait_for_load a.exit_code in
    if not a.has_kernel32
    then (some no_kernel32, [])
    else if not a.has_load_library
    then (some no_load_library, [])
    else if not a.has_remote
    then (some no_remote, alloc false bytes ∷ [])
    else if not (wrote_all a.written bytes)
    then (some not_written, alloc true bytes ∷ write bytes ∷ free ∷ [])
    else if not a.has_thread
    then (some no_thread, alloc true bytes ∷ write bytes ∷ create_thread false ∷ free ∷ [])
    else (error, alloc true bytes ∷ write bytes ∷ calls)
