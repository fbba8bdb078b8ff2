-- ===== src/DeviceHooks/Calls.antt =====
-- The calls of an application that reach the hooks of src/dll/DeviceHooks.cpp and
-- src/dll/ObjectHooks.cpp, one after the other, and what they may do to the DLL's state.
use dx12track.Prelude.{ℕ, List, [], ◌∷◌, Option}
use dx12track.Tracker.{Hooks}
use dx12track.ObjectHooks.{Guid, Methods, hook_release, hook_set_name, hook_set_private_data}
use dx12track.DeviceHooks.{Dll, Device, Original}
use dx12track.DeviceHooks.Create.{Create, hook_create, hook_set_residency_priority}

pub data AppCall : Type 0 where
  creates : Create → Device → Original → AppCall
  prioritises : Option (List (ℕ × ℕ)) → (Dll → Dll × ℕ) → AppCall
  releases : ℕ → AppCall
  names : ℕ → Option (List ℕ) → AppCall
  sets_data : ℕ → Guid → Option (List ℕ) → AppCall

unfoldable pub handle : Methods → Hooks → AppCall → Dll → Dll
handle m hooks (AppCall.creates c dev fn) d = (hook_create hooks dev c fn d).0
handle m hooks (AppCall.prioritises pairs fn) d = (hook_set_residency_priority pairs fn d).0
handle m hooks (AppCall.releases self) d = record d {
  tracker = (hook_release m hooks self d.tracker).0;
}
handle m hooks (AppCall.names self name) d = record d {
  tracker = (hook_set_name m hooks self name d.tracker).0;
}
handle m hooks (AppCall.sets_data self guid bytes) d = record d {
  tracker = (hook_set_private_data m hooks self guid bytes d.tracker).0;
}

unfoldable pub handle_all : Methods → Hooks → List AppCall → Dll → Dll
handle_all m hooks [] d = d
handle_all m hooks (c ∷ cs) d = handle_all m hooks cs (handle m hooks c d)
