-- ===== src/Etw.antt =====
-- The plain types of the ETW side (src/etw/EtwMonitor.h) and its names (src/etw/EtwMonitor.cpp).
use dx12track.Prelude.{ℕ, ℤ, Bool, ◌==◌}
use Prim.Native.String.{String}

pub data ObjType : Type 0 where
  invalid device resource heap pipeline_state state_object command_allocator : ObjType
  descriptor_heap meta_command count : ObjType

pub data Group : Type 0 where
  unknown local non_local : Group

pub data ResidencyOp : Type 0 where
  make_resident evict page_in page_out : ResidencyOp

pub data CounterKind : Type 0 where
  local_budget local_resident local_usage : CounterKind
  nonlocal_budget nonlocal_resident nonlocal_usage : CounterKind
  demoted_min demoted_low demoted_normal demoted_high demoted_max : CounterKind
  paging_local_to_nonlocal paging_nonlocal_to_local : CounterKind

pub record Stats : Type 0 where
  pub events : ℕ
  pub events_lost : ℕ
  pub buffers_lost : ℕ
  pub exceptions : ℕ
  pub rundowns : ℕ
  pub rundown_failures : ℕ

pub record GroupChange : Type 0 where
  pub ts : ℤ
  pub lib_id : ℕ
  pub type : ObjType
  pub group : Group

-- static_cast<size_t>(t)
unfoldable pub obj_type_index : ObjType → ℕ
obj_type_index ObjType.invalid = 0
obj_type_index ObjType.device = 1
obj_type_index ObjType.resource = 2
obj_type_index ObjType.heap = 3
obj_type_index ObjType.pipeline_state = 4
obj_type_index ObjType.state_object = 5
obj_type_index ObjType.command_allocator = 6
obj_type_index ObjType.descriptor_heap = 7
obj_type_index ObjType.meta_command = 8
obj_type_index ObjType.count = 9

abbrev pub is_obj_type : ObjType → ObjType → Bool
is_obj_type a b = obj_type_index a == obj_type_index b

unfoldable pub counter_index : CounterKind → ℕ
counter_index CounterKind.local_budget = 0
counter_index CounterKind.local_resident = 1
counter_index CounterKind.local_usage = 2
counter_index CounterKind.nonlocal_budget = 3
counter_index CounterKind.nonlocal_resident = 4
counter_index CounterKind.nonlocal_usage = 5
counter_index CounterKind.demoted_min = 6
counter_index CounterKind.demoted_low = 7
counter_index CounterKind.demoted_normal = 8
counter_index CounterKind.demoted_high = 9
counter_index CounterKind.demoted_max = 10
counter_index CounterKind.paging_local_to_nonlocal = 11
counter_index CounterKind.paging_nonlocal_to_local = 12

unfoldable pub obj_type_name : ObjType → String
obj_type_name ObjType.device = "Device"
obj_type_name ObjType.resource = "Resource"
obj_type_name ObjType.heap = "Heap"
obj_type_name ObjType.pipeline_state = "PipelineState"
obj_type_name ObjType.state_object = "StateObject"
obj_type_name ObjType.command_allocator = "CommandAllocator"
obj_type_name ObjType.descriptor_heap = "DescriptorHeap"
obj_type_name ObjType.meta_command = "MetaCommand"
obj_type_name _ = "Invalid"
