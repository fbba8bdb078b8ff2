-- ===== src/Tracker.antt =====
-- The object tracker of the injected DLL (src/dll/Tracker.h and src/dll/Tracker.cpp). The mutex
-- guards the maps; the events are emitted behind it. A call is one step here, its event with it,
-- so that events of concurrent hooks in another order are not modelled. What goes to the pipe and to the log is `sent`, oldest first. A pointer is
-- its number; `vtable_of` reads an object's vtable pointer, `writable` says whether VirtualProtect
-- succeeds on a slot, and `Hooks` are the addresses of the DLL's hook functions.
pub mod Ids
pub mod Patches
pub mod Heaps
use dx12track.Prelude.{
  ℕ, ◌+◌, ◌-◌, Bool, List, [], ◌∷◌, ◌++◌, Option, none, some, Map, find, put, erase, ◌==◌,
  if◌then◌else◌, add64, length, take, replicate, lists_eq,
}
use dx12track.Events.{
  ObjectType, AllocationKind, CreatedPayload, RenamedPayload, DestroyedPayload, max_name_chars,
  max_callstack_frames, wcs_prefix,
}

pub record ObjectInfo : Type 0 where
  pub id : ℕ
  pub type : ObjectType
  pub alloc : AllocationKind
  pub heap_type : ℕ
  pub dimension : ℕ
  pub format : ℕ
  pub size_bytes : ℕ
  pub parent_heap_id : ℕ
  pub parent_heap_ptr : ℕ
  pub heap_offset : ℕ
  pub object_ptr : ℕ
  pub name : List ℕ
  pub frame_count : ℕ
  pub frames : List ℕ

pub record VTablePatch : Type 0 where
  pub real_release : ℕ
  pub real_setprivatedata : ℕ
  pub real_setname : ℕ

-- An event that the tracker emits.
pub data Emitted : Type 0 where
  created : CreatedPayload → Emitted
  renamed : RenamedPayload → Emitted
  destroyed : DestroyedPayload → Emitted

pub record Hooks : Type 0 where
  pub release : ℕ
  pub setprivatedata : ℕ
  pub setname : ℕ
  pub vtable_of : ℕ → ℕ
  pub writable : ℕ → ℕ → Bool

-- `slots` is the memory of the vtables: the function at an index of a vtable.
pub record Tracker : Type 0 where
  pub next_id : ℕ
  pub objects : Map ObjectInfo
  pub vtable_patches : Map VTablePatch
  pub slots : ℕ → ℕ → ℕ
  pub sent : List Emitted

-- The fixed array that holds at most `limit - 1` units of a name and NULs.
unfoldable pub fit_array : ℕ → List ℕ → List ℕ
fit_array limit s = let kept = take (limit - 1) s in kept ++ replicate (limit - length kept) 0

unfoldable pub created_payload : ObjectInfo → CreatedPayload
created_payload info = record {
  id = info.id;
  size_bytes = info.size_bytes;
  parent_heap_id = info.parent_heap_id;
  parent_heap_ptr = info.parent_heap_ptr;
  object_ptr = info.object_ptr;
  heap_offset = info.heap_offset;
  heap_type = info.heap_type;
  dimension = info.dimension;
  format = info.format;
  type = info.type;
  alloc = info.alloc;
  frame_count = info.frame_count;
  name = fit_array max_name_chars info.name;
  frames =
      take info.frame_count info.frames ++ replicate (max_callstack_frames - info.frame_count) 0;
}

abbrev pub emit : Emitted → Tracker → Tracker
emit e t = record t { sent = t.sent ++ e ∷ [] }

unfoldable pub emit_created : ObjectInfo → Tracker → Tracker
emit_created info = emit (created (created_payload info))

unfoldable pub emit_renamed : ℕ → List ℕ → Tracker → Tracker
emit_renamed id name = emit (
    renamed
      (record { id = id; name = fit_array max_name_chars (wcs_prefix (max_name_chars - 1) name) }))

unfoldable pub emit_destroyed : ℕ → Tracker → Tracker
emit_destroyed id = emit (destroyed (record { id = id }))

-- PatchSlot: the previous function (0 if the page stays protected), and the memory.
unfoldable pub patch_slot : Hooks → ℕ → ℕ → ℕ → (ℕ → ℕ → ℕ) → ℕ × (ℕ → ℕ → ℕ)
patch_slot hooks vtable index new_fn slots =
    if hooks.writable vtable index
    then (
      slots vtable index,
      λ v i. if v == vtable then (if i == index then new_fn else slots v i) else slots v i,
    )
    else (0, slots)

abbrev pub unselfref : ℕ → ℕ → ℕ
unselfref captured hook = if captured == hook then 0 else captured

-- A vtable seen for the first time.
unfoldable pub patch_new : Hooks → ℕ → Tracker → Tracker
patch_new hooks vtable t =
    let (release, slots₁) = patch_slot hooks vtable 2 hooks.release t.slots in
    let (setprivatedata, slots₂) = patch_slot hooks vtable 4 hooks.setprivatedata slots₁ in
    let (setname, slots₃) = patch_slot hooks vtable 6 hooks.setname slots₂ in
    record t {
      slots = slots₃;
      vtable_patches =
          put vtable
            (record {
              real_release = unselfref release hooks.release;
              real_setprivatedata = unselfref setprivatedata hooks.setprivatedata;
              real_setname = unselfref setname hooks.setname;
            })
            t.vtable_patches;
    }

unfoldable pub patch_vtable_if_new : Hooks → ℕ → Tracker → Tracker
patch_vtable_if_new hooks obj t =
    if obj == 0 then t else elim (find (hooks.vtable_of obj) t.vtable_patches) [
      | some _ ↦ t
      | none ↦ patch_new hooks (hooks.vtable_of obj) t
    ]

unfoldable pub lookup_vtable : Hooks → ℕ → Tracker → Option VTablePatch
lookup_vtable hooks obj t = if obj == 0 then none else find (hooks.vtable_of obj) t.vtable_patches

-- Register: a fresh id for every call, also for a pointer that is tracked.
unfoldable pub register : Hooks → ℕ → ObjectInfo → Tracker → Tracker
register hooks obj info t =
    let patched = patch_vtable_if_new hooks obj t in
    let info' = record info { id = patched.next_id; object_ptr = obj } in
    if obj == 0
    then t
    else emit_created info' (record patched {
      next_id = add64 patched.next_id 1;
      objects = put obj info' patched.objects;
    })

unfoldable pub lookup_id : ℕ → Tracker → ℕ
lookup_id obj t = elim (find obj t.objects) [ none ↦ 0 | some info ↦ info.id ]

unfoldable pub on_release_to_zero : ℕ → Tracker → Tracker
on_release_to_zero obj t = elim (find obj t.objects) [
  | none ↦ t
  | some info ↦ emit_destroyed info.id (record t { objects = erase obj t.objects })
]

-- OnSetName: the same name again is not reported.
unfoldable pub on_set_name : ℕ → List ℕ → Tracker → Tracker
on_set_name obj name t = elim (find obj t.objects) [
  | none ↦ t
  | some info ↦
      if lists_eq info.name name
      then t
      else emit_renamed info.id name
          (record t { objects = put obj (record info { name = name }) t.objects })
]

abbrev pub empty_tracker : (ℕ → ℕ → ℕ) → Tracker
empty_tracker slots = record {
  next_id = 1;
  objects = [];
  vtable_patches = [];
  slots = slots;
  sent = [];
}

-- A call of a hook.
pub data Call : Type 0 where
  registers : ℕ → ObjectInfo → Call
  releases : ℕ → Call
  names : ℕ → List ℕ → Call

unfoldable pub step : Hooks → Call → Tracker → Tracker
step hooks (registers obj info) t = register hooks obj info t
step hooks (releases obj) t = on_release_to_zero obj t
step hooks (names obj name) t = on_set_name obj name t

unfoldable pub run : Hooks → List Call → Tracker → Tracker
run hooks [] t = t
run hooks (c ∷ cs) t = run hooks cs (step hooks c t)
