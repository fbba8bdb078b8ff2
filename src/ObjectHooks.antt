-- ===== src/ObjectHooks.antt =====
-- The hooks on the methods of a tracked object (src/dll/ObjectHooks.cpp). `Methods` are the original
-- functions, by their addresses: what one answers and what it does to the tracker, since an original
-- may call hooked methods itself. A `const wchar_t*` is none or the units before its NUL, `pData` none
-- or its bytes. The warning about an unknown vtable is not part of the state.
pub mod Names
pub mod Runs
use dx12track.Prelude.{
  ℕ, zero, suc, ◌+◌, ◌*◌, ◌/◌, ◌%◌, ◌^◌, Bool, true, false, List, [], ◌∷◌, Option, none, some,
  length, ltb, ◌==◌, if◌then◌else◌,
}
use dx12track.Events.{wcs_prefix}
use dx12track.Tracker.{Hooks, Tracker, VTablePatch, lookup_vtable, on_release_to_zero, on_set_name}

-- The GUIDs that SetPrivateData tells apart.
pub data Guid : Type 0 where
  debug_name_w debug_name other : Guid

pub record Methods : Type 0 where
  pub release : ℕ → ℕ → Tracker → Tracker × ℕ
  pub set_name : ℕ → ℕ → Option (List ℕ) → Tracker → Tracker × ℕ
  pub set_private_data : ℕ → ℕ → Guid → Option (List ℕ) → Tracker → Tracker × ℕ
  pub wide_of_ansi : List ℕ → List ℕ

-- SUCCEEDED(hr): not negative as an int32_t.
abbrev pub succeeded : ℕ → Bool
succeeded hr = ltb hr (2 ^ 31)

abbrev pub s_ok : ℕ
s_ok = 0

-- The address of an original, or null.
abbrev pub original : (VTablePatch → ℕ) → Hooks → ℕ → Tracker → ℕ
original field hooks self t = elim (lookup_vtable hooks self t) [ none ↦ 0 | some p ↦ field p ]

unfoldable pub get_real_release : Hooks → ℕ → Tracker → ℕ
get_real_release = original (λ p. p.real_release)

unfoldable pub get_real_set_name : Hooks → ℕ → Tracker → ℕ
get_real_set_name = original (λ p. p.real_setname)

unfoldable pub get_real_set_private_data : Hooks → ℕ → Tracker → ℕ
get_real_set_private_data = original (λ p. p.real_setprivatedata)

-- The buffer as wchar_t: an odd last byte is no unit.
unfoldable pub units_of : List ℕ → List ℕ
units_of [] = []
units_of (a ∷ []) = []
units_of (a ∷ b ∷ bs) = (a + 256 * b) ∷ units_of bs

-- `size` is the length of the buffer; a conversion that fails answers no units.
unfoldable pub extract_debug_name : Methods → Guid → Option (List ℕ) → List ℕ
extract_debug_name m guid none = []
extract_debug_name m Guid.debug_name_w (some bs) = wcs_prefix (length bs / 2) (units_of bs)
extract_debug_name m Guid.debug_name (some bs) =
    let ansi = wcs_prefix (length bs) bs in if length ansi == 0 then [] else m.wide_of_ansi ansi
extract_debug_name m Guid.other (some bs) = []

abbrev pub units_or_empty : Option (List ℕ) → List ℕ
units_or_empty name = elim name [ none ↦ [] | some s ↦ s ]

module _ (m : Methods) (hooks : Hooks) (self : ℕ) where
  unfoldable pub hook_release : Tracker → Tracker × ℕ
  hook_release t =
      let real = get_real_release hooks self t in
      let (t', ref) = m.release real self t in
      if real == 0 then (t, 1) else (if ref == 0 then on_release_to_zero self t' else t', ref)

  unfoldable pub hook_set_name : Option (List ℕ) → Tracker → Tracker × ℕ
  hook_set_name name t =
      let real = get_real_set_name hooks self t in
      let (t', hr) = m.set_name real self name t in
      if real == 0
      then (t, s_ok)
      else (if succeeded hr then on_set_name self (units_or_empty name) t' else t', hr)

  unfoldable pub hook_set_private_data : Guid → Option (List ℕ) → Tracker → Tracker × ℕ
  hook_set_private_data guid bytes t =
      let real = get_real_set_private_data hooks self t in
      let (t', hr) = m.set_private_data real self guid bytes t in
      let name = extract_debug_name m guid bytes in
      if real == 0
      then (t, s_ok)
      else if succeeded hr
      then (if length name == 0 then t' else on_set_name self name t', hr)
      else (t', hr)
