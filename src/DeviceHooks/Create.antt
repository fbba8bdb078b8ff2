-- ===== src/DeviceHooks/Create.antt =====
-- The hooks themselves (src/dll/DeviceHooks.cpp).
use Prim.Native.String.{String}
use mathlib.Core.Option
use dx12track.Prelude.{ℕ, List, [], ◌∷◌, ◌++◌, Option, none, some, ◌==◌, if◌then◌else◌}
use dx12track.Events.{ObjectType, AllocationKind}
use dx12track.Tracker.{ObjectInfo, Hooks, lookup_id}
use dx12track.ObjectHooks.{succeeded}
use dx12track.DeviceHooks.{
  Dll, ResourceDesc, ResourceDesc1, HeapDesc, Device, Original, heap_type_default, to_desc,
  make_resource_info, make_heap_info, make_simple_info, track, lookup_heap_id, note_fire,
}

module _ (hooks : Hooks) (dev : Device) where
  -- What the hooks have in common: `info` is what is tracked where the call succeeds, none where a
  -- description that it needs is null.
  unfoldable pub create_with : String → (Dll → Option ObjectInfo) → Original → Dll → Dll × ℕ
  create_with name info fn d =
      let (d', hr, ppv) = fn (note_fire name d) in
      let tracked : Dll = elim (info d') [ none ↦ d' | some i ↦ track hooks dev ppv i d' ] in
      (if succeeded hr then tracked else d', hr)

  abbrev committed_info : Option ℕ → Option ResourceDesc → Dll → Option ObjectInfo
  committed_info none desc d = none
  committed_info (some heap_type) none d = none
  committed_info (some heap_type) (some desc) d =
      some (make_resource_info dev desc AllocationKind.committed heap_type 0 0 0)

  abbrev heap_info : Option HeapDesc → Dll → Option ObjectInfo
  heap_info desc d = Option.map make_heap_info desc

  abbrev placed_info : ℕ → ℕ → Option ResourceDesc → Dll → Option ObjectInfo
  placed_info heap offset none d = none
  placed_info heap offset (some desc) d =
      let heap_type = if heap == 0 then heap_type_default else dev.heap_type_of heap in
      some (
        make_resource_info dev desc AllocationKind.placed heap_type (lookup_heap_id heap d) heap
          offset)

  abbrev reserved_info : Option ResourceDesc → Dll → Option ObjectInfo
  reserved_info none d = none
  reserved_info (some desc) d =
      some (make_resource_info dev desc AllocationKind.reserved heap_type_default 0 0 0)

  unfoldable pub hook_create_command_queue : Original → Dll → Dll × ℕ
  hook_create_command_queue =
      create_with "CreateCommandQueue" (λ _. some (make_simple_info ObjectType.command_queue))

  unfoldable pub hook_create_command_allocator : Original → Dll → Dll × ℕ
  hook_create_command_allocator =
      create_with "CreateCommandAllocator"
        (λ _. some (make_simple_info ObjectType.command_allocator))

  unfoldable pub hook_create_graphics_pipeline_state : Original → Dll → Dll × ℕ
  hook_create_graphics_pipeline_state =
      create_with "CreateGraphicsPipelineState"
        (λ _. some (make_simple_info ObjectType.pipeline_state))

  unfoldable pub hook_create_compute_pipeline_state : Original → Dll → Dll × ℕ
  hook_create_compute_pipeline_state =
      create_with "CreateComputePipelineState"
        (λ _. some (make_simple_info ObjectType.pipeline_state))

  unfoldable pub hook_create_command_list : Original → Dll → Dll × ℕ
  hook_create_command_list =
      create_with "CreateCommandList" (λ _. some (make_simple_info ObjectType.command_list))

  unfoldable pub hook_create_descriptor_heap : Original → Dll → Dll × ℕ
  hook_create_descriptor_heap =
      create_with "CreateDescriptorHeap" (λ _. some (make_simple_info ObjectType.descriptor_heap))

  unfoldable pub hook_create_root_signature : Original → Dll → Dll × ℕ
  hook_create_root_signature =
      create_with "CreateRootSignature" (λ _. some (make_simple_info ObjectType.root_signature))

  unfoldable pub hook_create_fence : Original → Dll → Dll × ℕ
  hook_create_fence = create_with "CreateFence" (λ _. some (make_simple_info ObjectType.fence))

  unfoldable pub hook_create_query_heap : Original → Dll → Dll × ℕ
  hook_create_query_heap =
      create_with "CreateQueryHeap" (λ _. some (make_simple_info ObjectType.query_heap))

  unfoldable pub hook_create_command_signature : Original → Dll → Dll × ℕ
  hook_create_command_signature =
      create_with "CreateCommandSignature"
        (λ _. some (make_simple_info ObjectType.command_signature))

  unfoldable pub hook_create_pipeline_state : Original → Dll → Dll × ℕ
  hook_create_pipeline_state =
      create_with "CreatePipelineState" (λ _. some (make_simple_info ObjectType.pipeline_state))

  unfoldable pub hook_create_command_list1 : Original → Dll → Dll × ℕ
  hook_create_command_list1 =
      create_with "CreateCommandList1" (λ _. some (make_simple_info ObjectType.command_list))

  unfoldable pub hook_create_command_queue1 : Original → Dll → Dll × ℕ
  hook_create_command_queue1 =
      create_with "CreateCommandQueue1" (λ _. some (make_simple_info ObjectType.command_queue))

  unfoldable pub hook_create_committed_resource :
      Option ℕ → Option ResourceDesc → Original → Dll → Dll × ℕ
  hook_create_committed_resource heap_properties desc =
      create_with "CreateCommittedResource" (committed_info heap_properties desc)

  unfoldable pub hook_create_committed_resource1 :
      Option ℕ → Option ResourceDesc → Original → Dll → Dll × ℕ
  hook_create_committed_resource1 heap_properties desc =
      create_with "CreateCommittedResource1" (committed_info heap_properties desc)

  unfoldable pub hook_create_committed_resource2 :
      Option ℕ → Option ResourceDesc1 → Original → Dll → Dll × ℕ
  hook_create_committed_resource2 heap_properties desc =
      create_with "CreateCommittedResource2"
        (committed_info heap_properties (Option.map to_desc desc))

  unfoldable pub hook_create_committed_resource3 :
      Option ℕ → Option ResourceDesc1 → Original → Dll → Dll × ℕ
  hook_create_committed_resource3 heap_properties desc =
      create_with "CreateCommittedResource3"
        (committed_info heap_properties (Option.map to_desc desc))

  unfoldable pub hook_create_heap : Option HeapDesc → Original → Dll → Dll × ℕ
  hook_create_heap desc = create_with "CreateHeap" (heap_info desc)

  unfoldable pub hook_create_heap1 : Option HeapDesc → Original → Dll → Dll × ℕ
  hook_create_heap1 desc = create_with "CreateHeap1" (heap_info desc)

  unfoldable pub hook_create_placed_resource :
      ℕ → ℕ → Option ResourceDesc → Original → Dll → Dll × ℕ
  hook_create_placed_resource heap offset desc =
      create_with "CreatePlacedResource" (placed_info heap offset desc)

  unfoldable pub hook_create_placed_resource1 :
      ℕ → ℕ → Option ResourceDesc1 → Original → Dll → Dll × ℕ
  hook_create_placed_resource1 heap offset desc =
      create_with "CreatePlacedResource1" (placed_info heap offset (Option.map to_desc desc))

  unfoldable pub hook_create_placed_resource2 :
      ℕ → ℕ → Option ResourceDesc1 → Original → Dll → Dll × ℕ
  hook_create_placed_resource2 heap offset desc =
      create_with "CreatePlacedResource2" (placed_info heap offset (Option.map to_desc desc))

  unfoldable pub hook_create_reserved_resource : Option ResourceDesc → Original → Dll → Dll × ℕ
  hook_create_reserved_resource desc = create_with "CreateReservedResource" (reserved_info desc)

  unfoldable pub hook_create_reserved_resource1 : Option ResourceDesc → Original → Dll → Dll × ℕ
  hook_create_reserved_resource1 desc = create_with "CreateReservedResource1" (reserved_info desc)

  unfoldable pub hook_create_reserved_resource2 : Option ResourceDesc → Original → Dll → Dll × ℕ
  hook_create_reserved_resource2 desc = create_with "CreateReservedResource2" (reserved_info desc)

-- One round of Hook_SetResidencyPriority's loop: an object and its priority.
unfoldable pub note_priority : ℕ × ℕ → Dll → Dll
note_priority (obj, priority) d = record d {
  priorities =
      d.priorities
      ++ (record { id = lookup_id obj d.tracker; object_ptr = obj; priority = priority }) ∷ [];
}

unfoldable pub note_priorities : List (ℕ × ℕ) → Dll → Dll
note_priorities [] d = d
note_priorities (p ∷ ps) d = note_priorities ps (note_priority p d)

-- The parallel arrays as one list, none if one of them is null. The original writes no pointer.
unfoldable pub hook_set_residency_priority : Option (List (ℕ × ℕ)) → (Dll → Dll × ℕ) → Dll → Dll × ℕ
hook_set_residency_priority pairs fn d =
    let (d', hr) = fn (note_fire "SetResidencyPriority" d) in
    let noted : Dll = elim pairs [ none ↦ d' | some ps ↦ note_priorities ps d' ] in
    (if succeeded hr then noted else d', hr)

-- A call of a Create method.
pub data Create : Type 0 where
  command_queue : Create
  command_allocator : Create
  graphics_pipeline_state : Create
  compute_pipeline_state : Create
  command_list : Create
  descriptor_heap : Create
  root_signature : Create
  fence : Create
  query_heap : Create
  command_signature : Create
  pipeline_state : Create
  command_list1 : Create
  command_queue1 : Create
  committed_resource : Option ℕ → Option ResourceDesc → Create
  committed_resource1 : Option ℕ → Option ResourceDesc → Create
  committed_resource2 : Option ℕ → Option ResourceDesc1 → Create
  committed_resource3 : Option ℕ → Option ResourceDesc1 → Create
  heap : Option HeapDesc → Create
  heap1 : Option HeapDesc → Create
  placed_resource : ℕ → ℕ → Option ResourceDesc → Create
  placed_resource1 : ℕ → ℕ → Option ResourceDesc1 → Create
  placed_resource2 : ℕ → ℕ → Option ResourceDesc1 → Create
  reserved_resource : Option ResourceDesc → Create
  reserved_resource1 : Option ResourceDesc → Create
  reserved_resource2 : Option ResourceDesc → Create

-- The hook that the device's vtable leads to.
unfoldable pub hook_create : Hooks → Device → Create → Original → Dll → Dll × ℕ
hook_create hooks dev Create.command_queue = hook_create_command_queue hooks dev
hook_create hooks dev Create.command_allocator = hook_create_command_allocator hooks dev
hook_create hooks dev Create.graphics_pipeline_state = hook_create_graphics_pipeline_state hooks dev
hook_create hooks dev Create.compute_pipeline_state = hook_create_compute_pipeline_state hooks dev
hook_create hooks dev Create.command_list = hook_create_command_list hooks dev
hook_create hooks dev Create.descriptor_heap = hook_create_descriptor_heap hooks dev
hook_create hooks dev Create.root_signature = hook_create_root_signature hooks dev
hook_create hooks dev Create.fence = hook_create_fence hooks dev
hook_create hooks dev Create.query_heap = hook_create_query_heap hooks dev
hook_create hooks dev Create.command_signature = hook_create_command_signature hooks dev
hook_create hooks dev Create.pipeline_state = hook_create_pipeline_state hooks dev
hook_create hooks dev Create.command_list1 = hook_create_command_list1 hooks dev
hook_create hooks dev Create.command_queue1 = hook_create_command_queue1 hooks dev
hook_create hooks dev (Create.committed_resource props desc) =
    hook_create_committed_resource hooks dev props desc
hook_create hooks dev (Create.committed_resource1 props desc) =
    hook_create_committed_resource1 hooks dev props desc
hook_create hooks dev (Create.committed_resource2 props desc) =
    hook_create_committed_resource2 hooks dev props desc
hook_create hooks dev (Create.committed_resource3 props desc) =
    hook_create_committed_resource3 hooks dev props desc
hook_create hooks dev (Create.heap desc) = hook_create_heap hooks dev desc
hook_create hooks dev (Create.heap1 desc) = hook_create_heap1 hooks dev desc
hook_create hooks dev (Create.placed_resource at offset desc) =
    hook_create_placed_resource hooks dev at offset desc
hook_create hooks dev (Create.placed_resource1 at offset desc) =
    hook_create_placed_resource1 hooks dev at offset desc
hook_create hooks dev (Create.placed_resource2 at offset desc) =
    hook_create_placed_resource2 hooks dev at offset desc
hook_create hooks dev (Create.reserved_resource desc) = hook_create_reserved_resource hooks dev desc
hook_create hooks dev (Create.reserved_resource1 desc) =
    hook_create_reserved_resource1 hooks dev desc
hook_create hooks dev (Create.reserved_resource2 desc) =
    hook_create_reserved_resource2 hooks dev desc
