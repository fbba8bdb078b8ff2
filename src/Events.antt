-- ===== src/Events.antt =====
-- The wire format that the DLL and the launcher share (src/common/EventTypes.h): enumerations,
-- payloads and their packed sizes, and the names that the logs print. A fixed wchar_t array is
-- the list of its code units.
use dx12track.Prelude.{ℕ, ◌+◌, ◌*◌, Bool, List, [], ◌∷◌, zero, suc, ◌==◌, if◌then◌else◌}
use Prim.Native.String.{String}

abbrev pub protocol_magic : ℕ
protocol_magic = 0x44583132

abbrev pub protocol_version : ℕ
protocol_version = 5

abbrev pub max_name_chars : ℕ
max_name_chars = 256

abbrev pub max_callstack_frames : ℕ
max_callstack_frames = 32

pub data ObjectType : Type 0 where
  unknown device resource heap descriptor_heap command_queue command_allocator : ObjectType
  command_list pipeline_state root_signature fence query_heap command_signature : ObjectType

pub data AllocationKind : Type 0 where
  none committed placed reserved heap : AllocationKind

pub data EventKind : Type 0 where
  hello created renamed destroyed goodbye module_loaded module_unloaded diagnostic : EventKind
  residency_priority : EventKind

-- static_cast<size_t>(t)
unfoldable pub object_type_index : ObjectType → ℕ
object_type_index ObjectType.unknown = 0
object_type_index ObjectType.device = 1
object_type_index ObjectType.resource = 2
object_type_index ObjectType.heap = 3
object_type_index ObjectType.descriptor_heap = 4
object_type_index ObjectType.command_queue = 5
object_type_index ObjectType.command_allocator = 6
object_type_index ObjectType.command_list = 7
object_type_index ObjectType.pipeline_state = 8
object_type_index ObjectType.root_signature = 9
object_type_index ObjectType.fence = 10
object_type_index ObjectType.query_heap = 11
object_type_index ObjectType.command_signature = 12

abbrev pub is_object_type : ObjectType → ObjectType → Bool
is_object_type a b = object_type_index a == object_type_index b

unfoldable pub alloc_index : AllocationKind → ℕ
alloc_index AllocationKind.none = 0
alloc_index AllocationKind.committed = 1
alloc_index AllocationKind.placed = 2
alloc_index AllocationKind.reserved = 3
alloc_index AllocationKind.heap = 4

pub record EventHeader : Type 0 where
  pub magic : ℕ
  pub payload_bytes : ℕ
  pub ts_ns : ℕ
  pub kind : EventKind

pub record HelloPayload : Type 0 where
  pub protocol_version : ℕ
  pub pid : ℕ
  pub qpc_frequency : ℕ
  pub qpc_start : ℕ
  pub exe_path : List ℕ

pub record CreatedPayload : Type 0 where
  pub id : ℕ
  pub size_bytes : ℕ
  pub parent_heap_id : ℕ
  pub parent_heap_ptr : ℕ
  pub object_ptr : ℕ
  pub heap_offset : ℕ
  pub heap_type : ℕ
  pub dimension : ℕ
  pub format : ℕ
  pub type : ObjectType
  pub alloc : AllocationKind
  pub frame_count : ℕ
  pub name : List ℕ
  pub frames : List ℕ

pub record RenamedPayload : Type 0 where
  pub id : ℕ
  pub name : List ℕ

pub record DestroyedPayload : Type 0 where
  pub id : ℕ

pub record GoodbyePayload : Type 0 where
  pub exit_code : ℕ

-- sizeof of the packed structures; a wchar_t has two bytes.
abbrev pub sizeof_hello : ℕ
sizeof_hello = 24 + 2 * max_name_chars

abbrev pub sizeof_created : ℕ
sizeof_created = 64 + 2 * max_name_chars + 8 * max_callstack_frames

abbrev pub sizeof_renamed : ℕ
sizeof_renamed = 8 + 2 * max_name_chars

abbrev pub sizeof_destroyed : ℕ
sizeof_destroyed = 8

abbrev pub sizeof_goodbye : ℕ
sizeof_goodbye = 4

-- The first code units of a wchar_t array, up to a NUL and at most `n`: what `wcsnlen` bounds.
unfoldable pub wcs_prefix : ℕ → List ℕ → List ℕ
wcs_prefix zero s = []
wcs_prefix (suc n) [] = []
wcs_prefix (suc n) (c ∷ s) = if c == 0 then [] else c ∷ wcs_prefix n s

unfoldable pub residency_priority_name : ℕ → String
residency_priority_name p =
    if p == 0x28000000
    then "Minimum"
    else if p == 0x50000000
    then "Low"
    else if p == 0x78000000
    then "Normal"
    else if p == 0xa0010000
    then "High"
    else if p == 0xc8000000
    then "Maximum"
    else "Custom"

unfoldable pub object_type_name : ObjectType → String
object_type_name ObjectType.device = "Device"
object_type_name ObjectType.resource = "Resource"
object_type_name ObjectType.heap = "Heap"
object_type_name ObjectType.descriptor_heap = "DescriptorHeap"
object_type_name ObjectType.command_queue = "CommandQueue"
object_type_name ObjectType.command_allocator = "CommandAllocator"
object_type_name ObjectType.command_list = "CommandList"
object_type_name ObjectType.pipeline_state = "PipelineState"
object_type_name ObjectType.root_signature = "RootSignature"
object_type_name ObjectType.fence = "Fence"
object_type_name ObjectType.query_heap = "QueryHeap"
object_type_name ObjectType.command_signature = "CommandSignature"
object_type_name ObjectType.unknown = "Unknown"

unfoldable pub allocation_kind_name : AllocationKind → String
allocation_kind_name AllocationKind.committed = "Committed"
allocation_kind_name AllocationKind.placed = "Placed"
allocation_kind_name AllocationKind.reserved = "Reserved"
allocation_kind_name AllocationKind.heap = "Heap"
allocation_kind_name AllocationKind.none = "None"

unfoldable pub heap_type_name : ℕ → String
heap_type_name t =
    if t == 1
    then "Default"
    else if t == 2
    then "Upload"
    else if t == 3
    then "Readback"
    else if t == 4
    then "Custom"
    else if t == 5
    then "GpuUpload"
    else "None"

unfoldable pub dimension_name : ℕ → String
dimension_name d =
    if d == 1
    then "Buffer"
    else if d == 2
    then "Tex1D"
    else if d == 3
    then "Tex2D"
    else if d == 4
    then "Tex3D"
    else "Unknown"
