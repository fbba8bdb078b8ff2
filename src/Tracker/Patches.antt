-- ===== src/Tracker/Patches.antt =====
-- The vtable patches of src/dll/Tracker.cpp.
use dx12track.Prelude.{
  ℕ, ◌≡◌, ◌≢◌, some, find, arith, ◌==◌, find-put-all, List, [], ◌∷◌, lists_eq, if_both, option_both,
}
use dx12track.Tracker.{
  VTablePatch, Hooks, Tracker, Call, registers, releases, names, step, run, empty_tracker, register,
  on_release_to_zero, on_set_name, emit_created, emit_renamed, emit_destroyed, unselfref, patch_new,
  patch_vtable_if_new, lookup_vtable,
}

-- A recorded original is never the hook itself.
pub record IsSafe (hooks : Hooks) (p : VTablePatch) : Type 0 where
  pub release : p.real_release ≢ hooks.release
  pub setprivatedata : p.real_setprivatedata ≢ hooks.setprivatedata
  pub setname : p.real_setname ≢ hooks.setname

-- The hooks are functions, so no null pointers.
pub record HooksExist (hooks : Hooks) : Type 0 where
  pub release : hooks.release ≢ 0
  pub setprivatedata : hooks.setprivatedata ≢ 0
  pub setname : hooks.setname ≢ 0

abbrev pub PatchesAreSafe : Hooks → Tracker → Type 0
PatchesAreSafe hooks t =
    (vtable : ℕ) (p : VTablePatch) → find vtable t.vtable_patches ≡ some p → IsSafe hooks p

unselfref-ne : (captured hook : ℕ) → hook ≢ 0 → unselfref captured hook ≢ hook
unselfref-ne captured hook h = ground arith

pub patch_new-PatchesAreSafe :
    (hooks : Hooks) (vtable : ℕ) (t : Tracker)
    → HooksExist hooks
    → PatchesAreSafe hooks t
    → PatchesAreSafe hooks (patch_new hooks vtable t)
unfolding patch_new
patch_new-PatchesAreSafe hooks vtable t ex =
    find-put-all (IsSafe hooks) vtable _ t.vtable_patches (record {
      release = unselfref-ne _ hooks.release ex.release;
      setprivatedata = unselfref-ne _ hooks.setprivatedata ex.setprivatedata;
      setname = unselfref-ne _ hooks.setname ex.setname;
    })

pub patch_vtable_if_new-PatchesAreSafe :
    (hooks : Hooks) (obj : ℕ) (t : Tracker)
    → HooksExist hooks
    → PatchesAreSafe hooks t
    → PatchesAreSafe hooks (patch_vtable_if_new hooks obj t)
unfolding patch_vtable_if_new
patch_vtable_if_new-PatchesAreSafe hooks obj t ex safe =
    if_both (PatchesAreSafe hooks) (obj == 0) safe (
      option_both (PatchesAreSafe hooks) (find (hooks.vtable_of obj) t.vtable_patches)
        (patch_new-PatchesAreSafe hooks _ t ex safe) (λ _ _. safe))

step-PatchesAreSafe :
    (hooks : Hooks) (c : Call) (t : Tracker)
    → HooksExist hooks
    → PatchesAreSafe hooks t
    → PatchesAreSafe hooks (step hooks c t)
unfolding step register on_release_to_zero on_set_name emit_created emit_renamed emit_destroyed
step-PatchesAreSafe hooks (registers obj info) t ex safe =
    if_both (PatchesAreSafe hooks) (obj == 0) safe
      (patch_vtable_if_new-PatchesAreSafe hooks obj t ex safe)
step-PatchesAreSafe hooks (releases obj) t ex safe =
    option_both (PatchesAreSafe hooks) (find obj t.objects) safe (λ _ _. safe)
step-PatchesAreSafe hooks (names obj name) t ex safe =
    option_both (PatchesAreSafe hooks) (find obj t.objects) safe
      (λ o _. if_both (PatchesAreSafe hooks) (lists_eq o.name name) safe safe)

run-keeps :
    (hooks : Hooks) (calls : List Call) (t : Tracker)
    → HooksExist hooks
    → PatchesAreSafe hooks t
    → PatchesAreSafe hooks (run hooks calls t)
unfolding run
run-keeps hooks [] t ex safe = safe
run-keeps hooks (c ∷ cs) t ex safe =
    run-keeps hooks cs (step hooks c t) ex (step-PatchesAreSafe hooks c t ex safe)

-- Where the hooks are no null pointers, whatever the vtables hold at first: after any calls on an
-- empty tracker, an original that LookupVTable answers is never the hook that would call it.
pub lookup_vtable-IsSafe :
    (hooks : Hooks) (slots : ℕ → ℕ → ℕ) (calls : List Call)
    → HooksExist hooks
    → (obj : ℕ) (p : VTablePatch)
    → lookup_vtable hooks obj (run hooks calls (empty_tracker slots)) ≡ some p
    → IsSafe hooks p
unfolding lookup_vtable find
lookup_vtable-IsSafe hooks slots calls ex obj p e =
    run-keeps hooks calls (empty_tracker slots) ex (λ v q f. cc) (hooks.vtable_of obj) p
      (ground arith)
