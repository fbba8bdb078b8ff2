-- ===== src/ObjectHooks/Runs.antt =====
-- What the hooks of src/dll/ObjectHooks.cpp do to the tracker is a sequence of its calls.
use dx12track.Prelude.{
  ℕ, ◌≡◌, refl, sym, ap, ◌∙◌, List, [], ◌∷◌, ◌++◌, Option, length, ◌==◌, if_both,
}
use dx12track.Tracker.{Hooks, Tracker, Call, releases, names, step, run}
use dx12track.ObjectHooks.{
  Guid, Methods, succeeded, get_real_release, get_real_set_name, get_real_set_private_data,
  extract_debug_name, units_or_empty, hook_release, hook_set_name, hook_set_private_data,
}

-- One tracker after some calls on another.
abbrev pub IsRun : Hooks → Tracker → Tracker → Type 0
IsRun hooks t t' = (calls : List Call) × (t' ≡ run hooks calls t)

run-append :
    (hooks : Hooks) (cs ds : List Call) (t : Tracker)
    → run hooks (cs ++ ds) t ≡ run hooks ds (run hooks cs t)
unfolding run
run-append hooks [] ds t = refl
run-append hooks (c ∷ cs) ds t = run-append hooks cs ds (step hooks c t)

pub IsRun-refl : (hooks : Hooks) (t : Tracker) → IsRun hooks t t
unfolding run
IsRun-refl hooks t = ([], refl)

pub IsRun-step :
    (hooks : Hooks) (c : Call) (t t' : Tracker) → IsRun hooks t t' → IsRun hooks t (step hooks c t')
unfolding run
IsRun-step hooks c t t' (cs, e) =
    (cs ++ c ∷ [], ap (step hooks c) e ∙ sym (run-append hooks cs (c ∷ []) t))

pub IsRun-trans :
    (hooks : Hooks) (t t' t'' : Tracker) → IsRun hooks t t' → IsRun hooks t' t'' → IsRun hooks t t''
IsRun-trans hooks t t' t'' (cs, e) (ds, f) =
    (cs ++ ds, f ∙ (ap (run hooks ds) e ∙ sym (run-append hooks cs ds t)))

-- The originals reach the tracker through its calls alone.
pub record AreRuns (m : Methods) (hooks : Hooks) : Type 0 where
  pub release : (real self : ℕ) (t : Tracker) → IsRun hooks t (m.release real self t).0
  pub set_name :
      (real self : ℕ) (name : Option (List ℕ)) (t : Tracker)
      → IsRun hooks t (m.set_name real self name t).0
  pub set_private_data :
      (real self : ℕ) (guid : Guid) (bytes : Option (List ℕ)) (t : Tracker)
      → IsRun hooks t (m.set_private_data real self guid bytes t).0

module _ (m : Methods) (hooks : Hooks) (r : AreRuns m hooks) (self : ℕ) (t : Tracker) where
  pub hook_release-IsRun : IsRun hooks t (hook_release m hooks self t).0
  unfolding hook_release step
  hook_release-IsRun =
      let real = get_real_release hooks self t in
      let after = r.release real self t in
      if_both (λ (x : Tracker × ℕ). IsRun hooks t x.0) (real == 0) (IsRun-refl hooks t)
        (if_both (IsRun hooks t) ((m.release real self t).1 == 0)
          (IsRun-step hooks (releases self) t _ after) after)

  pub hook_set_name-IsRun :
      (name : Option (List ℕ)) → IsRun hooks t (hook_set_name m hooks self name t).0
  unfolding hook_set_name step
  hook_set_name-IsRun name =
      let real = get_real_set_name hooks self t in
      let after = r.set_name real self name t in
      if_both (λ (x : Tracker × ℕ). IsRun hooks t x.0) (real == 0) (IsRun-refl hooks t)
        (if_both (IsRun hooks t) (succeeded (m.set_name real self name t).1)
          (IsRun-step hooks (names self (units_or_empty name)) t _ after) after)

  pub hook_set_private_data-IsRun :
      (guid : Guid) (bytes : Option (List ℕ))
      → IsRun hooks t (hook_set_private_data m hooks self guid bytes t).0
  unfolding hook_set_private_data step
  hook_set_private_data-IsRun guid bytes =
      let real = get_real_set_private_data hooks self t in
      let after = r.set_private_data real self guid bytes t in
      let name = extract_debug_name m guid bytes in
      if_both (λ (x : Tracker × ℕ). IsRun hooks t x.0) (real == 0) (IsRun-refl hooks t)
        (if_both (λ (x : Tracker × ℕ). IsRun hooks t x.0)
          (succeeded (m.set_private_data real self guid bytes t).1)
          (if_both (IsRun hooks t) (length name == 0) after
            (IsRun-step hooks (names self name) t _ after))
          after)
