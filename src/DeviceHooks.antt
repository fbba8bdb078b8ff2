-- ===== src/DeviceHooks.antt =====
-- The hooks on the Create methods of ID3D12Device, and on SetResidencyPriority
-- (src/dll/DeviceHooks.cpp). The original method is an argument of each hook: what it does to the DLL's
-- state (it may call hooked methods itself), its HRESULT, and what stands in `ppv` afterwards: none where
-- `ppv` is null, some 0 where it holds a null pointer. A pointer to a description is none or what it
-- points to. The residency events and the diagnostics are kept apart from the tracker's events, so how
-- these interleave is not modelled.
pub mod Create
pub mod Calls
pub mod Keeps
pub mod Safe
pub mod Fires
pub mod Placed
use Prim.Native.String.{String}
use text.Mathlib.Text.{◌==◌ as ◌str_eq◌}
use dx12track.Prelude.{
  ℕ, ◌-◌, ◌%◌, Bool, true, false, not, List, [], ◌∷◌, ◌++◌, Option, none, some, length, take,
  replicate, ◌==◌, if◌then◌else◌, u64_max,
}
use dx12track.Events.{ObjectType, AllocationKind, max_callstack_frames}
use dx12track.Log.{ResidencyPriorityPayload}
use dx12track.Tracker.{ObjectInfo, Hooks, Tracker, register, lookup_id}
use dx12track.ObjectHooks.{succeeded}

-- The globals that the hooks read and write: `fired` is the set of NoteFire.
pub record Dll : Type 0 where
  pub tracker : Tracker
  pub verbose : Bool
  pub capture_callstacks : Bool
  pub fired : List String
  pub diagnostics : List String
  pub priorities : List ResidencyPriorityPayload

-- D3D12_RESOURCE_DESC, and D3D12_RESOURCE_DESC1 with its own field more.
pub record ResourceDesc : Type 0 where
  pub dimension : ℕ
  pub alignment : ℕ
  pub width : ℕ
  pub height : ℕ
  pub depth_or_array_size : ℕ
  pub mip_levels : ℕ
  pub format : ℕ
  pub sample_desc : ℕ × ℕ
  pub layout : ℕ
  pub flags : ℕ

pub record ResourceDesc1 : Type 0 where
  pub base : ResourceDesc
  pub sampler_feedback_mip_region : ℕ × ℕ × ℕ

pub record HeapDesc : Type 0 where
  pub size_in_bytes : ℕ
  pub heap_type : ℕ

-- The device: GetResourceAllocationInfo's SizeInBytes, none for a null device; GetDesc of a heap; the
-- call stack at this moment.
pub record Device : Type 0 where
  pub allocation_size : Option (ResourceDesc → ℕ)
  pub heap_type_of : ℕ → ℕ
  pub back_trace : List ℕ

abbrev pub Original : Type 0
Original = Dll → Dll × ℕ × Option ℕ

abbrev pub dimension_buffer : ℕ
dimension_buffer = 1

abbrev pub heap_type_default : ℕ
heap_type_default = 1

unfoldable pub to_desc : ResourceDesc1 → ResourceDesc
to_desc d1 = record {
  dimension = d1.base.dimension;
  alignment = d1.base.alignment;
  width = d1.base.width;
  height = d1.base.height;
  depth_or_array_size = d1.base.depth_or_array_size;
  mip_levels = d1.base.mip_levels;
  format = d1.base.format;
  sample_desc = d1.base.sample_desc;
  layout = d1.base.layout;
  flags = d1.base.flags;
}

unfoldable pub compute_resource_size : Device → ResourceDesc → ℕ
compute_resource_size dev desc =
    if desc.dimension == dimension_buffer then desc.width else elim dev.allocation_size [
      | none ↦ 0
      | some size ↦ if size desc == u64_max then 0 else size desc
    ]

abbrev pub no_info : ObjectInfo
no_info = record {
  id = 0;
  type = ObjectType.unknown;
  alloc = AllocationKind.none;
  heap_type = 0;
  dimension = 0;
  format = 0;
  size_bytes = 0;
  parent_heap_id = 0;
  parent_heap_ptr = 0;
  heap_offset = 0;
  object_ptr = 0;
  name = [];
  frame_count = 0;
  frames = replicate max_callstack_frames 0;
}

unfoldable pub make_resource_info :
    Device → ResourceDesc → AllocationKind → ℕ → ℕ → ℕ → ℕ → ObjectInfo
make_resource_info dev desc alloc heap_type parent_heap_id parent_heap_ptr heap_offset =
    record no_info {
      type = ObjectType.resource;
      alloc = alloc;
      heap_type = heap_type;
      dimension = desc.dimension;
      format = desc.format;
      size_bytes = compute_resource_size dev desc;
      parent_heap_id = parent_heap_id;
      parent_heap_ptr = parent_heap_ptr;
      heap_offset = heap_offset;
    }

unfoldable pub make_heap_info : HeapDesc → ObjectInfo
make_heap_info desc = record no_info {
  type = ObjectType.heap;
  alloc = AllocationKind.heap;
  heap_type = desc.heap_type;
  size_bytes = desc.size_in_bytes;
}

unfoldable pub make_simple_info : ObjectType → ObjectInfo
make_simple_info t = record no_info { type = t; alloc = AllocationKind.none }

unfoldable pub with_stack : Device → ObjectInfo → ObjectInfo
with_stack dev info =
    let frames = take max_callstack_frames dev.back_trace in
    record info {
      frame_count = length frames % 256;
      frames = frames ++ replicate (max_callstack_frames - length frames) 0;
    }

unfoldable pub track : Hooks → Device → Option ℕ → ObjectInfo → Dll → Dll
track hooks dev none info d = d
track hooks dev (some obj) info d =
    let info' = if d.capture_callstacks then with_stack dev info else info in
    if obj == 0 then d else record d { tracker = register hooks obj info' d.tracker }

unfoldable pub lookup_heap_id : ℕ → Dll → ℕ
lookup_heap_id heap d = if heap == 0 then 0 else lookup_id heap d.tracker

unfoldable pub has_fired : String → List String → Bool
has_fired name [] = false
has_fired name (n ∷ ns) = if n str_eq name then true else has_fired name ns

-- NoteFire: one diagnostic for each hook.
unfoldable pub note_fire : String → Dll → Dll
note_fire name d =
    if not d.verbose
    then d
    else if has_fired name d.fired
    then d
    else record d { fired = d.fired ++ name ∷ []; diagnostics = d.diagnostics ++ name ∷ [] }
