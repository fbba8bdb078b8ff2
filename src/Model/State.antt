-- ===== src/Model/State.antt =====
-- The data of the model (src/launcher/Model.h), and the constants and the small pure functions
-- at the head of src/launcher/Model.cpp.
use dx12track.Prelude.{
  ℕ, ◌+◌, ◌*◌, ◌/◌, ◌%◌, Bool, true, false, List, Option, Map, leb, ◌==◌, if◌then◌else◌, u64_mod,
  u64_max, add64,
}
use dx12track.Events.{ObjectType, AllocationKind}
use dx12track.Etw.{ObjType, Group, ResidencyOp, CounterKind, Stats}
use dx12track.Json.{Text}
use Prim.Native.String.{String}

pub data MemLoc : Type 0 where
  unknown vram sys : MemLoc

unfoldable pub loc_index : MemLoc → ℕ
loc_index MemLoc.unknown = 0
loc_index MemLoc.vram = 1
loc_index MemLoc.sys = 2

abbrev pub is_loc : MemLoc → MemLoc → Bool
is_loc a b = loc_index a == loc_index b

pub record LiveObject : Type 0 where
  pub id : ℕ
  pub type : ObjectType
  pub alloc : AllocationKind
  pub heap_type : ℕ
  pub dimension : ℕ
  pub format : ℕ
  pub size_bytes : ℕ
  pub parent_heap_id : ℕ
  pub created_ns : ℕ
  pub object_ptr : ℕ
  pub name : List ℕ
  pub prev_destroy_ns : ℕ
  pub etw_key : ℕ
  pub own_loc : MemLoc
  pub eff_loc : MemLoc
  pub loc_reported : Bool
  pub driver_size : ℕ

pub record ActivityLine : Type 0 where
  pub ts_ns : ℕ
  pub created : Bool
  pub type : ObjectType
  pub id : ℕ
  pub size_bytes : ℕ
  pub name : List ℕ
  pub heap_label : Text

-- bytes[kHeapBuckets][kAllocBuckets], counts[kHeapBuckets][kAllocBuckets]
pub record MemoryTotals : Type 0 where
  pub bytes : ℕ → ℕ → ℕ
  pub counts : ℕ → ℕ → ℕ

abbrev pub obj_types : ℕ
obj_types = 9

abbrev pub counter_kinds : ℕ
counter_kinds = 13

pub record EtwSnapshot : Type 0 where
  pub enabled : Bool
  pub running : Bool
  pub status : List ℕ
  pub counter : ℕ → ℕ
  pub counter_seen : ℕ → Bool
  pub loc_bytes : ℕ → ℕ → ℕ
  pub live : ℕ → ℕ
  pub sized : ℕ → ℕ
  pub bytes : ℕ → ℕ
  pub bound : ℕ
  pub unbound : ℕ
  pub pending : ℕ
  pub unbound_by_type : ℕ → ℕ
  pub binds : ℕ
  pub rundown_duplicates : ℕ
  pub pending_expired : ℕ
  pub created : ℕ
  pub late_matches : ℕ
  pub group_changes : ℕ
  pub make_resident : ℕ
  pub evict : ℕ
  pub page_ins : ℕ
  pub page_outs : ℕ
  pub post_exit_ignored : ℕ
  pub diagnostics : ℕ
  pub rundown_interval_ms : ℕ
  pub session : Stats

pub record Snapshot : Type 0 where
  pub pid : ℕ
  pub exe_path : List ℕ
  pub dll_start_ns : ℕ
  pub latest_ns : ℕ
  pub child_exited : Bool
  pub child_exit_code : ℕ
  pub live_count : ℕ
  pub live_bytes : ℕ
  pub per_type_counts : ℕ → ℕ
  pub totals : MemoryTotals
  pub recent : List ActivityLine
  pub etw : EtwSnapshot

pub record EtwObj : Type 0 where
  pub type : ObjType
  pub address : ℕ
  pub size : ℕ
  pub group : MemLoc
  pub created_ts : ℕ
  pub bound_id : ℕ
  pub orphan_ts : ℕ
  pub pending_since_ms : ℕ
  pub expired : Bool
  pub aliases : List ℕ

pub record DeadObj : Type 0 where
  pub id : ℕ
  pub type : ObjectType
  pub prev_destroy_ns : ℕ
  pub destroyed_ns : ℕ

pub record CounterVal : Type 0 where
  pub kind : CounterKind
  pub bytes : ℕ

-- `side_open` is `side_ != nullptr`; `side_file` is what was written to the sidecar.
pub record Model : Type 0 where
  pub s : Snapshot
  pub live : Map LiveObject
  pub etw_enabled : Bool
  pub hello_seen : Bool
  pub qpc_freq : ℕ
  pub qpc_start : ℕ
  pub qpc_start_ns : ℕ
  pub child_exit_ts : ℕ
  pub child_process : Bool
  pub child_alive_ts : ℕ
  pub child_exiting : Bool
  pub exit_cutoff_ts : ℕ
  pub ptr_to_id : Map ℕ
  pub dead_by_ptr : Map (List DeadObj)
  pub destroy_hist : List (ℕ × ℕ)
  pub children : Map (List ℕ)
  pub etw_objs : Map EtwObj
  pub etw_alias : Map ℕ
  pub etw_by_addr : Map ℕ
  pub pending_q : List ℕ
  pub counters : Map CounterVal
  pub last_second_ms : ℕ
  pub side_open : Bool
  pub side_prebuf : Text
  pub side_file : Text
  pub session_name : List ℕ
  pub main_log_path : List ℕ
  pub rundown_interval_ms : ℕ

-- What the operating system answers during one call: GetTickCount64, QueryPerformanceCounter,
-- whether the child's handle is signaled, GetExitCodeProcess (none: it failed), and the UTF-8
-- bytes of a code unit.
pub record Env : Type 0 where
  pub now_ms : ℕ
  pub qpc : ℕ
  pub signaled : Bool
  pub exit_code : Option ℕ
  pub utf8 : ℕ → Text

abbrev pub etw_pending_timeout_ms : ℕ
etw_pending_timeout_ms = 10_000

abbrev pub bind_slack_ns : ℕ
bind_slack_ns = 100_000

abbrev pub destroy_history_ns : ℕ
destroy_history_ns = 10_000_000_000

abbrev pub dead_per_address : ℕ
dead_per_address = 1024

-- _umul128 gives the two halves of the product, _udiv128 divides them.
unfoldable pub ticks_to_ns : ℕ → ℕ → ℕ
ticks_to_ns ticks freq =
    let product = ticks * 1_000_000_000 in
    let hi = product / u64_mod in
    let lo = product % u64_mod in
    if freq == 0 then 0 else if leb freq hi then u64_max else (hi * u64_mod + lo) / freq

unfoldable pub is_driver_type : ObjType → Bool
is_driver_type ObjType.pipeline_state = true
is_driver_type ObjType.state_object = true
is_driver_type ObjType.descriptor_heap = true
is_driver_type ObjType.command_allocator = true
is_driver_type _ = false

unfoldable pub compatible : ObjType → ObjectType → Bool
compatible ObjType.resource ObjectType.resource = true
compatible ObjType.heap ObjectType.heap = true
compatible ObjType.pipeline_state ObjectType.pipeline_state = true
compatible ObjType.command_allocator ObjectType.command_allocator = true
compatible ObjType.descriptor_heap ObjectType.descriptor_heap = true
compatible _ _ = false

unfoldable pub bindable : ObjType → Bool
bindable ObjType.resource = true
bindable ObjType.heap = true
bindable ObjType.pipeline_state = true
bindable ObjType.command_allocator = true
bindable ObjType.descriptor_heap = true
bindable _ = false

unfoldable pub from_group : Group → MemLoc
from_group Group.local = MemLoc.vram
from_group Group.non_local = MemLoc.sys
from_group Group.unknown = MemLoc.unknown

unfoldable pub loc_name : MemLoc → String
loc_name MemLoc.vram = "vram"
loc_name MemLoc.sys = "sys"
loc_name MemLoc.unknown = "unknown"

unfoldable pub residency_op_name : ResidencyOp → String
residency_op_name ResidencyOp.page_in = "page_in"
residency_op_name ResidencyOp.page_out = "page_out"
residency_op_name ResidencyOp.evict = "evict"
residency_op_name ResidencyOp.make_resident = "make_resident"

unfoldable pub heap_bucket : ℕ → ℕ
heap_bucket t =
    if t == 1
    then 1
    else if t == 2
    then 2
    else if t == 3
    then 3
    else if t == 4
    then 4
    else if t == 5
    then 5
    else 0

-- ++v
abbrev pub inc : ℕ → ℕ
inc v = add64 v 1

-- A write to an array, at one index and at two.
abbrev pub write {ℓ} : {A : Type ℓ} → (ℕ → A) → ℕ → A → ℕ → A
write f i v j = if i == j then v else f j

abbrev pub write₂ : (ℕ → ℕ → ℕ) → ℕ → ℕ → ℕ → ℕ → ℕ → ℕ
write₂ f i j v k l = if (i == k) then (if j == l then v else f k l) else f k l
