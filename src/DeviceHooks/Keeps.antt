-- ===== src/DeviceHooks/Keeps.antt =====
-- What every write of src/dll/DeviceHooks.cpp and src/dll/ObjectHooks.cpp to the DLL's state keeps, the
-- calls of an application keep.
use Prim.Native.String.{String}
use dx12track.Prelude.{
  ℕ, ◌≡◌, refl, List, [], ◌∷◌, Option, none, some, if_both, option_both, ◌==◌, if◌then◌else◌,
}
use dx12track.Tracker.{ObjectInfo, Hooks, Tracker, registers, step}
use dx12track.ObjectHooks.{Methods, succeeded}
use dx12track.ObjectHooks.Runs.{
  IsRun, IsRun-refl, IsRun-step, AreRuns, hook_release-IsRun, hook_set_name-IsRun,
  hook_set_private_data-IsRun,
}
use dx12track.DeviceHooks.{Dll, Device, Original, track, note_fire, with_stack}
use dx12track.DeviceHooks.Create.{
  Create, create_with, hook_create_command_queue, hook_create_command_allocator,
  hook_create_graphics_pipeline_state, hook_create_compute_pipeline_state, hook_create_command_list,
  hook_create_descriptor_heap, hook_create_root_signature, hook_create_fence,
  hook_create_query_heap, hook_create_command_signature, hook_create_pipeline_state,
  hook_create_command_list1, hook_create_command_queue1, hook_create_committed_resource,
  hook_create_committed_resource1, hook_create_committed_resource2, hook_create_committed_resource3,
  hook_create_heap, hook_create_heap1, hook_create_placed_resource, hook_create_placed_resource1,
  hook_create_placed_resource2, hook_create_reserved_resource, hook_create_reserved_resource1,
  hook_create_reserved_resource2, hook_create, note_priority, note_priorities,
  hook_set_residency_priority,
}
use dx12track.DeviceHooks.Calls.{AppCall, handle, handle_all}

-- The Create hooks differ in their name and in what they track.
hook_create-create_with :
    (hooks : Hooks) (dev : Device) (c : Create)
    → (name : String) × (info : Dll → Option ObjectInfo) × (hook_create hooks dev c
        ≡ create_with hooks dev name info)
unfolding hook_create hook_create_command_queue hook_create_command_allocator
    hook_create_graphics_pipeline_state hook_create_compute_pipeline_state hook_create_command_list
    hook_create_descriptor_heap hook_create_root_signature hook_create_fence hook_create_query_heap
    hook_create_command_signature hook_create_pipeline_state hook_create_command_list1
    hook_create_command_queue1 hook_create_committed_resource hook_create_committed_resource1
    hook_create_committed_resource2 hook_create_committed_resource3 hook_create_heap
    hook_create_heap1 hook_create_placed_resource hook_create_placed_resource1
    hook_create_placed_resource2 hook_create_reserved_resource hook_create_reserved_resource1
    hook_create_reserved_resource2
hook_create-create_with hooks dev Create.command_queue = (_, _, refl)
hook_create-create_with hooks dev Create.command_allocator = (_, _, refl)
hook_create-create_with hooks dev Create.graphics_pipeline_state = (_, _, refl)
hook_create-create_with hooks dev Create.compute_pipeline_state = (_, _, refl)
hook_create-create_with hooks dev Create.command_list = (_, _, refl)
hook_create-create_with hooks dev Create.descriptor_heap = (_, _, refl)
hook_create-create_with hooks dev Create.root_signature = (_, _, refl)
hook_create-create_with hooks dev Create.fence = (_, _, refl)
hook_create-create_with hooks dev Create.query_heap = (_, _, refl)
hook_create-create_with hooks dev Create.command_signature = (_, _, refl)
hook_create-create_with hooks dev Create.pipeline_state = (_, _, refl)
hook_create-create_with hooks dev Create.command_list1 = (_, _, refl)
hook_create-create_with hooks dev Create.command_queue1 = (_, _, refl)
hook_create-create_with hooks dev (Create.committed_resource props desc) = (_, _, refl)
hook_create-create_with hooks dev (Create.committed_resource1 props desc) = (_, _, refl)
hook_create-create_with hooks dev (Create.committed_resource2 props desc) = (_, _, refl)
hook_create-create_with hooks dev (Create.committed_resource3 props desc) = (_, _, refl)
hook_create-create_with hooks dev (Create.heap desc) = (_, _, refl)
hook_create-create_with hooks dev (Create.heap1 desc) = (_, _, refl)
hook_create-create_with hooks dev (Create.placed_resource at offset desc) = (_, _, refl)
hook_create-create_with hooks dev (Create.placed_resource1 at offset desc) = (_, _, refl)
hook_create-create_with hooks dev (Create.placed_resource2 at offset desc) = (_, _, refl)
hook_create-create_with hooks dev (Create.reserved_resource desc) = (_, _, refl)
hook_create-create_with hooks dev (Create.reserved_resource1 desc) = (_, _, refl)
hook_create-create_with hooks dev (Create.reserved_resource2 desc) = (_, _, refl)

-- A property that every write of the DLL to its state keeps.
pub record IsKept (hooks : Hooks) (P : Dll → Type 0) : Type 0 where
  pub fires : (name : String) (d : Dll) → P d → P (note_fire name d)
  pub tracks :
      (t : Tracker) (d : Dll) → IsRun hooks d.tracker t → P d → P (record d { tracker = t })
  pub notes : (p : ℕ × ℕ) (d : Dll) → P d → P (note_priority p d)

-- The originals that the application's calls lead to keep a property too.
abbrev pub AreKept : (Dll → Type 0) → List AppCall → Type 0
AreKept P [] = Unit
AreKept P (AppCall.creates c dev fn ∷ cs) = ((d : Dll) → P d → P (fn d).0) × AreKept P cs
AreKept P (AppCall.prioritises pairs fn ∷ cs) = ((d : Dll) → P d → P (fn d).0) × AreKept P cs
AreKept P (AppCall.releases self ∷ cs) = AreKept P cs
AreKept P (AppCall.names self name ∷ cs) = AreKept P cs
AreKept P (AppCall.sets_data self guid bytes ∷ cs) = AreKept P cs

module _ (hooks : Hooks) (P : Dll → Type 0) (k : IsKept hooks P) where
  track-keeps :
      (dev : Device) (ppv : Option ℕ) (info : ObjectInfo) (d : Dll)
      → P d
      → P (track hooks dev ppv info d)
  unfolding track step
  track-keeps dev none info d p = p
  track-keeps dev (some obj) info d p =
      let info' = if d.capture_callstacks then with_stack dev info else info in
      if_both P (obj == 0) p (
        k.tracks _ d
          (IsRun-step hooks (registers obj info') d.tracker d.tracker (IsRun-refl hooks d.tracker))
          p)

  create_with-keeps :
      (dev : Device) (name : String) (info : Dll → Option ObjectInfo) (fn : Original)
      → ((d : Dll) → P d → P (fn d).0)
      → (d : Dll) → P d
      → P (create_with hooks dev name info fn d).0
  unfolding create_with
  create_with-keeps dev name info fn f d p =
      let d' = (fn (note_fire name d)).0 in
      let after : P d' = f (note_fire name d) (k.fires name d p) in
      if_both P (succeeded (fn (note_fire name d)).1)
        (option_both P (info d') after
          (λ i _. track-keeps dev (fn (note_fire name d)).2 i d' after))
        after

  hook_create-keeps :
      (dev : Device) (c : Create) (fn : Original)
      → ((d : Dll) → P d → P (fn d).0)
      → (d : Dll) → P d
      → P (hook_create hooks dev c fn d).0
  hook_create-keeps dev c fn f d p =
      let (name, info, e) = hook_create-create_with hooks dev c in
      rw e (create_with-keeps dev name info fn f d p)

  note_priorities-keeps : (ps : List (ℕ × ℕ)) (d : Dll) → P d → P (note_priorities ps d)
  unfolding note_priorities
  note_priorities-keeps [] d p = p
  note_priorities-keeps (x ∷ ps) d p = note_priorities-keeps ps (note_priority x d) (k.notes x d p)

  hook_set_residency_priority-keeps :
      (pairs : Option (List (ℕ × ℕ))) (fn : Dll → Dll × ℕ)
      → ((d : Dll) → P d → P (fn d).0)
      → (d : Dll) → P d
      → P (hook_set_residency_priority pairs fn d).0
  unfolding hook_set_residency_priority
  hook_set_residency_priority-keeps pairs fn f d p =
      let d₁ = note_fire "SetResidencyPriority" d in
      let after : P (fn d₁).0 = f d₁ (k.fires _ d p) in
      if_both P (succeeded (fn d₁).1)
        (option_both P pairs after (λ ps _. note_priorities-keeps ps (fn d₁).0 after)) after

  -- Every write keeps it, so a run of the application does.
  pub handle_all-keeps :
      (m : Methods)
      → AreRuns m hooks
      → (cs : List AppCall) → AreKept P cs
      → (d : Dll) → P d
      → P (handle_all m hooks cs d)
  unfolding handle_all handle
  handle_all-keeps m r [] a d p = p
  handle_all-keeps m r (AppCall.creates c dev fn ∷ cs) a d p =
      handle_all-keeps m r cs a.1 _ (hook_create-keeps dev c fn a.0 d p)
  handle_all-keeps m r (AppCall.prioritises pairs fn ∷ cs) a d p =
      handle_all-keeps m r cs a.1 _ (hook_set_residency_priority-keeps pairs fn a.0 d p)
  handle_all-keeps m r (AppCall.releases self ∷ cs) a d p =
      handle_all-keeps m r cs a _ (k.tracks _ d (hook_release-IsRun m hooks r self d.tracker) p)
  handle_all-keeps m r (AppCall.names self name ∷ cs) a d p =
      handle_all-keeps m r cs a _
        (k.tracks _ d (hook_set_name-IsRun m hooks r self d.tracker name) p)
  handle_all-keeps m r (AppCall.sets_data self guid bytes ∷ cs) a d p =
      handle_all-keeps m r cs a _
        (k.tracks _ d (hook_set_private_data-IsRun m hooks r self d.tracker guid bytes) p)
