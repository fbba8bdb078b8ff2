-- ===== src/Monitor.antt =====
-- The ETW monitor (src/etw/EtwMonitor.cpp). Its library is a submodule: what the library tells is the
-- list of its callbacks, `Notification`, with the values of its own enumerations.
pub mod Counters
pub mod Session
pub mod Stale
use Prim.Native.String.{String}
use text.Mathlib.Text.{◌==◌ as ◌str_eq◌}
use dx12track.Prelude.{
  ℕ, ◌-◌, ℤ, pos, negsuc, Bool, true, false, not, ◌||◌, List, [], ◌∷◌, ◌++◌, Option, none, some,
  Map, find, put, ltb, leb, ◌==◌, if◌then◌else◌,
}
use dx12track.Etw.{ObjType, Group, GroupChange, ResidencyOp, CounterKind}

-- MemorySegmentGroup and ResidencyOperationType of the library; `other` is any other value.
pub data SegmentGroup : Type 0 where
  local non_local other : SegmentGroup

pub data OperationType : Type 0 where
  evict page_in page_out other : OperationType

-- The enumerators of ObjType from a number on.
abbrev obj_type_from : List ObjType → ℕ → ObjType
obj_type_from [] v = ObjType.invalid
obj_type_from (t ∷ ts) v = if v == 0 then t else obj_type_from ts (v - 1)

abbrev pub obj_types : List ObjType
obj_types =
    ObjType.invalid ∷ ObjType.device ∷ ObjType.resource ∷ ObjType.heap ∷ ObjType.pipeline_state
    ∷ ObjType.state_object ∷ ObjType.command_allocator ∷ ObjType.descriptor_heap
    ∷ ObjType.meta_command ∷ []

unfoldable pub to_obj_type : ℤ → ObjType
to_obj_type (negsuc n) = ObjType.invalid
to_obj_type (pos v) = if v == 0 || leb 9 v then ObjType.invalid else obj_type_from obj_types v

unfoldable pub to_group : SegmentGroup → Group
to_group SegmentGroup.local = Group.local
to_group SegmentGroup.non_local = Group.non_local
to_group SegmentGroup.other = Group.unknown

unfoldable pub to_residency_op : OperationType → ResidencyOp
to_residency_op OperationType.evict = ResidencyOp.evict
to_residency_op OperationType.page_in = ResidencyOp.page_in
to_residency_op OperationType.page_out = ResidencyOp.page_out
to_residency_op OperationType.other = ResidencyOp.make_resident

-- kMap
abbrev pub counter_names : List (String × CounterKind)
counter_names =
    ("Local Budget", CounterKind.local_budget)
    ∷ ("Local Resident", CounterKind.local_resident)
    ∷ ("Local Usage", CounterKind.local_usage)
    ∷ ("Non-Local Budget", CounterKind.nonlocal_budget)
    ∷ ("Non-Local Resident", CounterKind.nonlocal_resident)
    ∷ ("Non-Local Usage", CounterKind.nonlocal_usage)
    ∷ ("Minimum Priority", CounterKind.demoted_min)
    ∷ ("Low Priority", CounterKind.demoted_low)
    ∷ ("Normal Priority", CounterKind.demoted_normal)
    ∷ ("High Priority", CounterKind.demoted_high)
    ∷ ("Maximum Priority", CounterKind.demoted_max)
    ∷ ("Local to Non-Local Paging", CounterKind.paging_local_to_nonlocal)
    ∷ ("Non-Local to Local Paging", CounterKind.paging_nonlocal_to_local)
    ∷ []

unfoldable pub named : String → List (String × CounterKind) → Option CounterKind
named name [] = none
named name ((n, kind) ∷ ns) = if n str_eq name then some kind else named name ns

-- The name may be null.
unfoldable pub counter_kind_from_name : Option String → Option CounterKind
counter_kind_from_name none = none
counter_kind_from_name (some name) = named name counter_names

pub record Placement : Type 0 where
  pub gpu_virtual_size : ℕ
  pub resident_group : SegmentGroup

pub record Change : Type 0 where
  pub ts : ℤ
  pub object_id : ℕ
  pub object_type : ℤ
  pub group : SegmentGroup

-- Ids are those that the library's base classes give; the value of a counter, a double, is its bits.
-- A call of a callback. The creation callbacks differ in the type of the object; a placement may be
-- null. A counter's information comes with the process it is of.
pub data Notification : Type 0 where
  device_creation : ℤ → ℕ → Notification
  placed_creation : ObjType → ℤ → ℕ → Option Placement → Notification
  reserved_creation : ℤ → ℕ → Notification
  destruction : ℤ → ℤ → ℕ → Notification
  object_name : ℕ → Notification
  size_and_address : ℤ → ℤ → ℕ → ℕ → Notification
  address : ℤ → ℕ → ℕ → Notification
  residency_operation : ℤ → ℕ → ℤ → OperationType → Notification
  segment_group_changes : List Change → Notification
  counter_info : ℕ → Option String → ℕ → Notification
  counter_data : List (ℤ × ℕ × ℕ) → Notification
  diagnostic : Bool → ℤ → List ℕ → Notification

-- A call of the Sink.
pub data SinkCall : Type 0 where
  object_created : ℤ → ℕ → ObjType → ℕ → Group → SinkCall
  object_destroyed : ℤ → ℕ → ObjType → SinkCall
  object_size : ℤ → ℕ → ObjType → ℕ → SinkCall
  object_address : ℕ → ObjType → ℕ → SinkCall
  residency : ℤ → ℕ → ObjType → ResidencyOp → SinkCall
  group_changes : List GroupChange → SinkCall
  counter : ℤ → ℕ → CounterKind → ℕ → SinkCall
  diagnostic : Bool → ℤ → List ℕ → SinkCall

unfoldable pub created : ObjType → ℤ → ℕ → Option Placement → SinkCall
created type ts id none = SinkCall.object_created ts id type 0 Group.unknown
created type ts id (some pl) =
    SinkCall.object_created ts id type pl.gpu_virtual_size (to_group pl.resident_group)

unfoldable pub to_changes : List Change → List GroupChange
to_changes [] = []
to_changes (c ∷ cs) =
    (record {
      ts = c.ts;
      lib_id = c.object_id;
      type = to_obj_type c.object_type;
      group = to_group c.group;
    })
    ∷ to_changes cs

-- OnPixCounterData's loop: the points of the counters that are known.
unfoldable pub points : Map CounterKind → List (ℤ × ℕ × ℕ) → List SinkCall
points counters [] = []
points counters ((ts, id, value) ∷ ps) = elim (find id counters) [
  | none ↦ points counters ps
  | some kind ↦ SinkCall.counter ts id kind value ∷ points counters ps
]

unfoldable pub note_counter : ℕ → ℕ → Option String → ℕ → Map CounterKind → Map CounterKind
note_counter traced pid name id counters = elim (counter_kind_from_name name) [
  | none ↦ counters
  | some kind ↦ if pid == traced then put id kind counters else counters
]

unfoldable pub notify : ℕ → Notification → Map CounterKind → Map CounterKind × List SinkCall
notify traced (Notification.device_creation ts id) counters =
    (counters, SinkCall.object_created ts id ObjType.device 0 Group.unknown ∷ [])
notify traced (Notification.placed_creation type ts id pl) counters =
    (counters, created type ts id pl ∷ [])
notify traced (Notification.reserved_creation ts id) counters =
    (counters, SinkCall.object_created ts id ObjType.resource 0 Group.unknown ∷ [])
notify traced (Notification.destruction ts type id) counters =
    (counters, SinkCall.object_destroyed ts id (to_obj_type type) ∷ [])
notify traced (Notification.object_name id) counters = (counters, [])
notify traced (Notification.size_and_address ts type id size) counters =
    (counters, SinkCall.object_size ts id (to_obj_type type) size ∷ [])
notify traced (Notification.address type id addr) counters =
    (counters, SinkCall.object_address id (to_obj_type type) addr ∷ [])
notify traced (Notification.residency_operation ts id type op) counters =
    (counters, SinkCall.residency ts id (to_obj_type type) (to_residency_op op) ∷ [])
notify traced (Notification.segment_group_changes []) counters = (counters, [])
notify traced (Notification.segment_group_changes (c ∷ cs)) counters =
    (counters, SinkCall.group_changes (to_changes (c ∷ cs)) ∷ [])
notify traced (Notification.counter_info pid name id) counters =
    (note_counter traced pid name id counters, [])
notify traced (Notification.counter_data ps) counters = (counters, points counters ps)
notify traced (Notification.diagnostic error code message) counters =
    (counters, SinkCall.diagnostic error code message ∷ [])

unfoldable pub notify_all :
    ℕ → List Notification → Map CounterKind → Map CounterKind × List SinkCall
notify_all traced [] counters = (counters, [])
notify_all traced (n ∷ ns) counters =
    let (counters', calls) = notify traced n counters in
    let (counters'', rest) = notify_all traced ns counters' in (counters'', calls ++ rest)
