-- ===== src/DeviceHooks/Fires.antt =====
-- The diagnostic of a hook that fires (NoteFire of src/dll/DeviceHooks.cpp) comes once.
use Prim.Native.String.{String}
use text.Mathlib.Text.{◌==◌ as ◌str_eq◌}
use text.Mathlib.TextEquality.{eq_iff}
use dx12track.Prelude.{
  ℕ, ◌+◌, ◌≤◌, ◌≡◌, refl, ap, sym, ◌∙◌, false, not, List, [], ◌∷◌, ◌++◌, arith, if_cases,
  Bool-cases, inl, inr, if◌then◌else◌,
}
use dx12track.Tracker.{Hooks}
use dx12track.ObjectHooks.{Methods}
use dx12track.ObjectHooks.Runs.{AreRuns}
use dx12track.DeviceHooks.{Dll, has_fired, note_fire}
use dx12track.DeviceHooks.Create.{note_priority}
use dx12track.DeviceHooks.Calls.{AppCall, handle_all}
use dx12track.DeviceHooks.Keeps.{IsKept, AreKept, handle_all-keeps}

-- How often a name stands in a list.
unfoldable pub count_name : String → List String → ℕ
count_name q [] = 0
count_name q (n ∷ ns) = (if n str_eq q then 1 else 0) + count_name q ns

count_name-append :
    (q : String) (ms ns : List String) → count_name q (ms ++ ns) ≡ count_name q ms + count_name q ns
unfolding count_name
count_name-append q [] ns = omega arith
count_name-append q (m ∷ ms) ns = omega (arith, count_name-append q ms ns)

count_name-unfired : (q : String) (ns : List String) → has_fired q ns ≡ false → count_name q ns ≡ 0
unfolding count_name has_fired
count_name-unfired q [] h = refl
count_name-unfired q (n ∷ ns) h = ground (arith, count_name-unfired q ns)

count_name-snoc_le :
    (q name : String) (ns : List String)
    → count_name q ns ≤ 1
    → has_fired name ns ≡ false
    → count_name q (ns ++ name ∷ []) ≤ 1
unfolding count_name
count_name-snoc_le q name ns h f = elim (Bool-cases (name str_eq q)) [
  | inl e ↦
      let same : name ≡ q = (eq_iff name q).0 e in
      let none_yet : count_name q ns ≡ 0 =
        ap (λ x. count_name x ns) (sym same) ∙ count_name-unfired name ns f in
      rw (count_name-append q ns (name ∷ []), e, none_yet) (omega arith)
  | inr e ↦ rw (count_name-append q ns (name ∷ []), e) (omega (arith, h))
]

-- The diagnostics are the names in the set, each once.
pub record FiresOnce (d : Dll) : Type 0 where
  pub same : d.diagnostics ≡ d.fired
  pub once : (name : String) → count_name name d.diagnostics ≤ 1

note_fire-FiresOnce : (name : String) (d : Dll) → FiresOnce d → FiresOnce (note_fire name d)
unfolding note_fire
note_fire-FiresOnce name d h =
    if_cases FiresOnce (not d.verbose) (λ _. h)
      (λ _.
        if_cases FiresOnce (has_fired name d.fired) (λ _. h)
          (λ f. record {
            same = ap (λ ns. ns ++ name ∷ []) h.same;
            once = λ q. count_name-snoc_le q name d.diagnostics (h.once q) (rw h.same f);
          }))

FiresOnce-IsKept : (hooks : Hooks) → IsKept hooks FiresOnce
unfolding note_priority
FiresOnce-IsKept hooks = record {
  fires = note_fire-FiresOnce;
  tracks = λ t d r h. record { same = h.same; once = h.once };
  notes = λ p d h. record { same = h.same; once = h.once };
}

-- The calls of an application, whose originals reach the tracker through its calls alone and keep this
-- themselves, keep the diagnostics equal to the set of the names that have fired, and each name once.
pub handle_all-FiresOnce :
    (m : Methods) (hooks : Hooks) (cs : List AppCall) (d : Dll)
    → AreRuns m hooks
    → AreKept FiresOnce cs
    → FiresOnce d
    → FiresOnce (handle_all m hooks cs d)
handle_all-FiresOnce m hooks cs d r a h =
    handle_all-keeps hooks FiresOnce (FiresOnce-IsKept hooks) m r cs a d h
