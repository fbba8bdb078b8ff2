-- ===== src/DeviceHooks/Placed.antt =====
-- A resource that src/dll/DeviceHooks.cpp places in a heap names the heap by its id.
use dx12track.Prelude.{
  ℕ, ◌+◌, ◌<◌, ◌≡◌, ◌≢◌, refl, ap, true, false, Bool-cases, inl, inr, List, [], ◌∷◌, ◌++◌, some,
  length, find, arith, u64_mod, ◌==◌, if_both, option_both,
}
use dx12track.Events.{CreatedPayload}
use dx12track.Tracker.{
  ObjectInfo, Hooks, Tracker, Call, Emitted, created, run, empty_tracker, register, lookup_id,
  patch_vtable_if_new, patch_new, created_payload, emit_created,
}
use dx12track.Tracker.Ids.{IsOnce, run-IsOnce, count_created, count_destroyed}
use dx12track.ObjectHooks.{succeeded}
use dx12track.DeviceHooks.{
  Dll, ResourceDesc, Device, Original, track, lookup_heap_id, note_fire, with_stack,
  make_resource_info,
}
use dx12track.DeviceHooks.Create.{create_with, hook_create_placed_resource}

-- A tracker's events and one more, the creation of a placed resource.
abbrev pub PlacesIn : ℕ → ℕ → ℕ → List Emitted → List Emitted → Type 0
PlacesIn heap id offset before after =
    (p : CreatedPayload) × (after ≡ before ++ created p ∷ [])
    × (p.parent_heap_ptr ≡ heap)
    × (p.parent_heap_id ≡ id)
    × (p.heap_offset ≡ offset)
    × (count_created p.parent_heap_id before ≡ 1)
    × (count_destroyed p.parent_heap_id before ≡ 0)

patch_vtable_if_new-sent :
    (hooks : Hooks) (obj : ℕ) (t : Tracker) → (patch_vtable_if_new hooks obj t).sent ≡ t.sent
unfolding patch_vtable_if_new patch_new
patch_vtable_if_new-sent hooks obj t =
    if_both (λ (x : Tracker). x.sent ≡ t.sent) (obj == 0) refl
      (option_both (λ (x : Tracker). x.sent ≡ t.sent) (find (hooks.vtable_of obj) t.vtable_patches)
        refl (λ _ _. refl))

-- What a new object adds to the events, but for its id and address, is its description.
register-adds :
    (hooks : Hooks) (obj : ℕ) (info : ObjectInfo) (t : Tracker)
    → obj ≢ 0
    → (id : ℕ) × ((register hooks obj info t).sent
        ≡ t.sent ++ created (created_payload (record info { id = id; object_ptr = obj })) ∷ [])
unfolding register emit_created
register-adds hooks obj info t h =
    let patched = patch_vtable_if_new hooks obj t in
    let known : (obj == 0) ≡ false = ground arith in
    let adds : List Emitted → List Emitted = λ s.
      s
      ++ created (created_payload (record info { id = patched.next_id; object_ptr = obj })) ∷ [] in
    (patched.next_id, rw (known, register) (ap adds (patch_vtable_if_new-sent hooks obj t)))

track-PlacesIn :
    (hooks : Hooks) (dev : Device) (obj id : ℕ) (info : ObjectInfo) (d : Dll)
    → obj ≢ 0
    → info.parent_heap_id ≡ id
    → count_created info.parent_heap_id d.tracker.sent ≡ 1
    → count_destroyed info.parent_heap_id d.tracker.sent ≡ 0
    → PlacesIn info.parent_heap_ptr id info.heap_offset d.tracker.sent
        (track hooks dev (some obj) info d).tracker.sent
unfolding track with_stack created_payload
track-PlacesIn hooks dev obj id info d h same one none_yet =
    let known : (obj == 0) ≡ false = ground arith in
    elim (Bool-cases d.capture_callstacks) [
      | inl e ↦
          let (new, adds) = register-adds hooks obj (with_stack dev info) d.tracker h in
          rw (known, e) (_, adds, refl, same, refl, one, none_yet)
      | inr e ↦
          let (new, adds) = register-adds hooks obj info d.tracker h in
          rw (known, e) (_, adds, refl, same, refl, one, none_yet)
    ]

placed_id :
    (heap : ℕ) (d : Dll) (o : ObjectInfo)
    → heap ≢ 0
    → find heap d.tracker.objects ≡ some o
    → lookup_heap_id heap d ≡ o.id
unfolding lookup_heap_id lookup_id
placed_id heap d o there found =
    let known : (heap == 0) ≡ false = ground arith in ground (arith, found)

-- A successful CreatePlacedResource with a description, whose original answers a new object in a heap
-- that is tracked then: where fewer than 2^64 - 1 calls of the tracker from its empty state led to the
-- state after the original, the hook reports the object with the heap's address and the offset, and with
-- the id under which the tracker holds the object at the heap's address, which has been reported as
-- created once and not as destroyed.
pub hook_create_placed_resource-PlacesIn :
    (hooks : Hooks) (dev : Device) (slots : ℕ → ℕ → ℕ) (calls : List Call) (fn : Original)
    (heap offset obj hr : ℕ) (desc : ResourceDesc) (d d' : Dll) (o : ObjectInfo)
    → fn (note_fire "CreatePlacedResource" d) ≡ (d', hr, some obj)
    → succeeded hr ≡ true
    → obj ≢ 0
    → heap ≢ 0
    → d'.tracker ≡ run hooks calls (empty_tracker slots)
    → 1 + length calls < u64_mod
    → find heap d'.tracker.objects ≡ some o
    → PlacesIn heap o.id offset d'.tracker.sent
        (hook_create_placed_resource hooks dev heap offset (some desc) fn d).0.tracker.sent
unfolding hook_create_placed_resource create_with make_resource_info lookup_heap_id
hook_create_placed_resource-PlacesIn hooks dev slots calls fn heap offset obj hr desc d d' o answers
      ok new there from few found =
    let once : IsOnce d'.tracker = rw from (run-IsOnce hooks slots calls few) in
    let (same, one, none_yet) = once.1 heap o found in
    let known : (heap == 0) ≡ false = ground arith in
    rw (answers, ok)
      (track-PlacesIn hooks dev obj o.id _ d' new (placed_id heap d' o there found)
        (rw (known, lookup_heap_id) one) (rw (known, lookup_heap_id) none_yet))
