-- ===== src/Tests/Hooks.antt =====
-- The hooks at concrete inputs.
use dx12track.Prelude.{find, put, ℕ, ◌≡◌, refl, true, false, List, [], ◌∷◌, some, arith}
use dx12track.Tracker.{
  Tracker, registers, run, empty_tracker, step, register, patch_vtable_if_new, patch_new,
  patch_slot, emit_created, lookup_vtable, on_set_name,
}
use dx12track.Tests.Dll.{hooks, fence}
use dx12track.ObjectHooks.{
  extract_debug_name, get_real_set_name, Guid, Methods, s_ok, units_or_empty, hook_set_name,
  hook_set_private_data,
}
use dx12track.ObjectHooks.Runs.{AreRuns, IsRun-refl}
use dx12track.ObjectHooks.Names.{bytes_of, hook_set_name-once}
use dx12track.DeviceHooks.{Dll, ResourceDesc, Device, Original, note_fire, has_fired}
use dx12track.DeviceHooks.Create.{Create, hook_create_placed_resource}
use dx12track.DeviceHooks.Calls.{AppCall, handle_all}
use dx12track.DeviceHooks.Safe.{AreForeign, handle_all-AreForeign}
use dx12track.DeviceHooks.Fires.{FiresOnce, count_name, handle_all-FiresOnce}
use dx12track.DeviceHooks.Placed.{PlacesIn, hook_create_placed_resource-PlacesIn}

-- Originals that do nothing to the tracker; the last reference goes.
abbrev plain : Methods
plain = record {
  release = λ real self t. (t, 0);
  set_name = λ real self name t. (t, s_ok);
  set_private_data = λ real self guid bytes t. (t, s_ok);
  wide_of_ansi = λ s. s;
}

-- SetName by means of the object's SetPrivateData.
abbrev forwarding : Methods
forwarding = record plain {
  set_name = λ real self name t.
      hook_set_private_data plain hooks self Guid.debug_name_w
        (some (bytes_of (units_or_empty name))) t;
}

abbrev plain_runs : AreRuns plain hooks
plain_runs = record {
  release = λ real self t. IsRun-refl hooks t;
  set_name = λ real self name t. IsRun-refl hooks t;
  set_private_data = λ real self guid bytes t. IsRun-refl hooks t;
}

abbrev fresh_dll : Dll
fresh_dll = record {
  tracker = empty_tracker (λ vtable i. 0x700);
  verbose = true;
  capture_callstacks = false;
  fired = [];
  diagnostics = [];
  priorities = [];
}

abbrev device : Device
device = record {
  allocation_size = some (λ desc. 65536);
  heap_type_of = λ heap. 1;
  back_trace = 0x40 ∷ [];
}

abbrev texture : ResourceDesc
texture = record {
  dimension = 3;
  alignment = 0;
  width = 64;
  height = 64;
  depth_or_array_size = 1;
  mip_levels = 1;
  format = 28;
  sample_desc = (1, 0);
  layout = 0;
  flags = 0;
}

abbrev answers : ℕ → Original
answers obj d = (d, s_ok, some obj)

-- A heap, a texture in it, both again, a name, a priority and an end.
abbrev app : List AppCall
app =
    AppCall.creates (Create.heap (some (record { size_in_bytes = 65536; heap_type = 1 }))) device
      (answers 0x1000)
    ∷ AppCall.creates (Create.placed_resource 0x1000 256 (some texture)) device (answers 0x2000)
    ∷ AppCall.creates (Create.placed_resource 0x1000 512 (some texture)) device (answers 0x3000)
    ∷ AppCall.names 0x2000 (some (97 ∷ []))
    ∷ AppCall.prioritises (some ((0x2000, 4) ∷ [])) (λ d. (d, s_ok))
    ∷ AppCall.sets_data 0x2000 Guid.debug_name_w (some (98 ∷ 0 ∷ []))
    ∷ AppCall.releases 0x2000
    ∷ []

-- An object that has been registered.
abbrev tracked : Tracker
tracked = run hooks (registers 0x1000 fence ∷ []) (empty_tracker (λ vtable i. 0x700))

hook_set_name-once_example :
    hook_set_name forwarding hooks 0x1000 (some (97 ∷ 98 ∷ [])) tracked
    ≡ (on_set_name 0x1000 (97 ∷ 98 ∷ []) tracked, s_ok)
unfolding get_real_set_name lookup_vtable run step register patch_vtable_if_new patch_new patch_slot
    find emit_created put hook_set_private_data extract_debug_name
hook_set_name-once_example =
    hook_set_name-once forwarding hooks 0x1000 tracked (97 ∷ 98 ∷ [])
      ((omega arith, omega arith), ((omega arith, omega arith), tt)) (omega arith) (λ real. refl)
      (λ real guid bytes. refl)

handle_all-AreForeign_example :
    AreForeign hooks 0x3000 (handle_all plain hooks app fresh_dll).tracker
handle_all-AreForeign_example =
    handle_all-AreForeign plain hooks (λ v i. 0x700) app fresh_dll refl
      (record { release = omega arith; setprivatedata = omega arith; setname = omega arith })
      plain_runs ((λ d p. p), ((λ d p. p), ((λ d p. p), ((λ d p. p), tt)))) 0x3000

handle_all-FiresOnce_example : FiresOnce (handle_all plain hooks app fresh_dll)
unfolding count_name
handle_all-FiresOnce_example =
    handle_all-FiresOnce plain hooks app fresh_dll plain_runs
      ((λ d p. p), ((λ d p. p), ((λ d p. p), ((λ d p. p), tt))))
      (record { same = refl; once = λ name. omega arith })

-- The state in which the heap is tracked.
abbrev with_heap : Dll
with_heap = record fresh_dll { tracker = tracked }

hook_create_placed_resource-PlacesIn_example :
    PlacesIn 0x1000 1 256 tracked.sent
      (hook_create_placed_resource hooks device 0x1000 256
        (some texture)
        (answers 0x2000)
        with_heap).0.tracker.sent
unfolding note_fire has_fired run step register patch_vtable_if_new patch_new patch_slot find
    emit_created put
hook_create_placed_resource-PlacesIn_example =
    hook_create_placed_resource-PlacesIn hooks device (λ vtable i. 0x700)
      (registers 0x1000 fence ∷ []) (answers 0x2000) 0x1000 256 0x2000 s_ok texture with_heap
      (note_fire "CreatePlacedResource" with_heap) (record fence { id = 1; object_ptr = 0x1000 })
      refl refl (omega arith) (omega arith) refl (omega arith) refl
