-- ===== src/Tracker/Heaps.antt =====
-- The heaps that src/dll/Tracker.cpp names in its `Created` events.
use dx12track.Prelude.{
  ℕ, ◌<◌, ◌≡◌, ◌≢◌, List, [], ◌∷◌, ◌++◌, find, arith, if_both, option_both, lists_eq, ◌==◌,
}
use dx12track.Tracker.{
  ObjectInfo, Hooks, Tracker, Emitted, Call, registers, releases, names, created, renamed,
  destroyed, emit_created, emit_renamed, emit_destroyed, created_payload, patch_new,
  patch_vtable_if_new, register, on_release_to_zero, on_set_name, lookup_id, step, run,
}
use dx12track.Tracker.Ids.{HasIds}

-- No created object is its own heap.
abbrev pub HasOtherHeaps : List Emitted → Type 0
HasOtherHeaps [] = Unit
HasOtherHeaps (created p ∷ es) = (p.id ≢ p.parent_heap_id) × HasOtherHeaps es
HasOtherHeaps (renamed p ∷ es) = HasOtherHeaps es
HasOtherHeaps (destroyed p ∷ es) = HasOtherHeaps es

-- The heap of each object that a hook registers is none, or has an id that was handed out before.
abbrev pub HeapsIssued : Hooks → List Call → Tracker → Type 0
HeapsIssued hooks [] t = Unit
HeapsIssued hooks (registers obj info ∷ cs) t =
    (info.parent_heap_id < t.next_id) × HeapsIssued hooks cs (step hooks (registers obj info) t)
HeapsIssued hooks (releases obj ∷ cs) t = HeapsIssued hooks cs (step hooks (releases obj) t)
HeapsIssued hooks (names obj name ∷ cs) t = HeapsIssued hooks cs (step hooks (names obj name) t)

-- What LookupId answers is such an id.
pub lookup_id-issued : (obj : ℕ) (t : Tracker) → HasIds t → lookup_id obj t < t.next_id
unfolding lookup_id
lookup_id-issued obj t h =
    option_both (λ x. x < t.next_id) (find obj t.objects) (omega (arith, h.positive))
      (λ o e. (h.tracked obj o e).1)

HasOtherHeaps-emit :
    (es : List Emitted) (e : Emitted)
    → HasOtherHeaps es
    → HasOtherHeaps (e ∷ [])
    → HasOtherHeaps (es ++ e ∷ [])
HasOtherHeaps-emit [] e h g = g
HasOtherHeaps-emit (created p ∷ es) e h g = (h.0, HasOtherHeaps-emit es e h.1 g)
HasOtherHeaps-emit (renamed p ∷ es) e h g = HasOtherHeaps-emit es e h g
HasOtherHeaps-emit (destroyed p ∷ es) e h g = HasOtherHeaps-emit es e h g

abbrev Tells : Tracker → Type 0
Tells t = HasOtherHeaps t.sent

patched-sent :
    (hooks : Hooks) (obj : ℕ) (t : Tracker)
    → ((patch_vtable_if_new hooks obj t).sent ≡ t.sent)
      × ((patch_vtable_if_new hooks obj t).next_id ≡ t.next_id)
unfolding patch_vtable_if_new patch_new
patched-sent hooks obj t = ground arith

register-Tells :
    (hooks : Hooks) (obj : ℕ) (info : ObjectInfo) (t : Tracker)
    → info.parent_heap_id < t.next_id
    → Tells t
    → Tells (register hooks obj info t)
unfolding register emit_created created_payload
register-Tells hooks obj info t g h =
    let (sent, next) = patched-sent hooks obj t in
    if_both Tells (obj == 0) h (
      HasOtherHeaps-emit (patch_vtable_if_new hooks obj t).sent _ (rw sent h)
        ((λ e. omega (arith, next)), tt))

on_release_to_zero-Tells : (obj : ℕ) (t : Tracker) → Tells t → Tells (on_release_to_zero obj t)
unfolding on_release_to_zero emit_destroyed
on_release_to_zero-Tells obj t h =
    option_both Tells (find obj t.objects) h (λ o e. HasOtherHeaps-emit t.sent _ h tt)

on_set_name-Tells :
    (obj : ℕ) (name : List ℕ) (t : Tracker) → Tells t → Tells (on_set_name obj name t)
unfolding on_set_name emit_renamed
on_set_name-Tells obj name t h =
    option_both Tells (find obj t.objects) h
      (λ o e. if_both Tells (lists_eq o.name name) h (HasOtherHeaps-emit t.sent _ h tt))

-- No call makes the tracker announce an object as its own heap.
pub run-HasOtherHeaps :
    (hooks : Hooks) (calls : List Call) (t : Tracker)
    → HeapsIssued hooks calls t
    → HasOtherHeaps t.sent
    → HasOtherHeaps (run hooks calls t).sent
unfolding run step
run-HasOtherHeaps hooks [] t g h = h
run-HasOtherHeaps hooks (registers obj info ∷ cs) t g h =
    run-HasOtherHeaps hooks cs _ g.1 (register-Tells hooks obj info t g.0 h)
run-HasOtherHeaps hooks (releases obj ∷ cs) t g h =
    run-HasOtherHeaps hooks cs _ g (on_release_to_zero-Tells obj t h)
run-HasOtherHeaps hooks (names obj name ∷ cs) t g h =
    run-HasOtherHeaps hooks cs _ g (on_set_name-Tells obj name t h)
