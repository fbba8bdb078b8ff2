-- ===== src/DeviceHooks/Safe.antt =====
-- The hooks of src/dll/DeviceHooks.cpp and src/dll/ObjectHooks.cpp reach the tracker through its calls,
-- and never call themselves.
use dx12track.Prelude.{ℕ, ◌≡◌, ◌≢◌, sym, not, List, some, if_both, option_both}
use dx12track.Tracker.{Hooks, Tracker, VTablePatch, run, empty_tracker, lookup_vtable}
use dx12track.Tracker.Patches.{IsSafe, HooksExist, lookup_vtable-IsSafe}
use dx12track.ObjectHooks.{Methods, get_real_release, get_real_set_name, get_real_set_private_data}
use dx12track.ObjectHooks.Runs.{IsRun, IsRun-refl, IsRun-trans, AreRuns}
use dx12track.DeviceHooks.{Dll, note_fire, has_fired}
use dx12track.DeviceHooks.Create.{note_priority}
use dx12track.DeviceHooks.Calls.{AppCall, handle_all}
use dx12track.DeviceHooks.Keeps.{IsKept, AreKept, handle_all-keeps}

reached-IsKept : (hooks : Hooks) (t : Tracker) → IsKept hooks (λ d. IsRun hooks t d.tracker)
unfolding note_fire note_priority
reached-IsKept hooks t = record {
  fires = λ name d p.
      if_both (λ (x : Dll). IsRun hooks t x.tracker) (not d.verbose) p
        (if_both (λ (x : Dll). IsRun hooks t x.tracker) (has_fired name d.fired) p p);
  tracks = λ t' d r p. IsRun-trans hooks t d.tracker t' p r;
  notes = λ x d p. p;
}

-- The calls of an application on any state: where the originals reach the tracker through its calls
-- alone, the tracker afterwards is the one before after some sequence of the tracker's calls.
handle_all-IsRun :
    (m : Methods) (hooks : Hooks) (cs : List AppCall) (d : Dll)
    → AreRuns m hooks
    → AreKept (λ d'. IsRun hooks d.tracker d'.tracker) cs
    → IsRun hooks d.tracker (handle_all m hooks cs d).tracker
handle_all-IsRun m hooks cs d r a =
    handle_all-keeps hooks (λ d'. IsRun hooks d.tracker d'.tracker) (reached-IsKept hooks d.tracker)
      m r cs a d (IsRun-refl hooks d.tracker)

-- The hooks of an object call back no hook.
abbrev pub AreForeign : Hooks → ℕ → Tracker → Type 0
AreForeign hooks self t =
    (get_real_release hooks self t ≢ hooks.release)
    × (get_real_set_name hooks self t ≢ hooks.setname)
    × (get_real_set_private_data hooks self t ≢ hooks.setprivatedata)

safe-AreForeign :
    (hooks : Hooks) (self : ℕ) (t : Tracker)
    → HooksExist hooks
    → ((p : VTablePatch) → lookup_vtable hooks self t ≡ some p → IsSafe hooks p)
    → AreForeign hooks self t
unfolding get_real_release get_real_set_name get_real_set_private_data
safe-AreForeign hooks self t ex safe =
    let found = lookup_vtable hooks self t in
    (
      option_both (λ f. f ≢ hooks.release) found (λ z. ex.release (sym z))
          (λ p e. (safe p e).release),
      option_both (λ f. f ≢ hooks.setname) found (λ z. ex.setname (sym z))
          (λ p e. (safe p e).setname),
      option_both (λ f. f ≢ hooks.setprivatedata) found (λ z. ex.setprivatedata (sym z))
          (λ p e. (safe p e).setprivatedata),
    )

-- From an empty tracker, where the hooks are no null pointers and the originals reach the tracker
-- through its calls alone: after any calls of an application, the function that the hook of Release, of
-- SetName or of SetPrivateData passes a call on to is not that hook itself.
pub handle_all-AreForeign :
    (m : Methods) (hooks : Hooks) (slots : ℕ → ℕ → ℕ) (cs : List AppCall) (d : Dll)
    → d.tracker ≡ empty_tracker slots
    → HooksExist hooks
    → AreRuns m hooks
    → AreKept (λ d'. IsRun hooks d.tracker d'.tracker) cs
    → (self : ℕ) → AreForeign hooks self (handle_all m hooks cs d).tracker
handle_all-AreForeign m hooks slots cs d start ex r a self =
    let (calls, e) = handle_all-IsRun m hooks cs d r a in
    rw e (
      rw start (
        safe-AreForeign hooks self (run hooks calls (empty_tracker slots)) ex
          (lookup_vtable-IsSafe hooks slots calls ex self)))
