-- ===== src/ObjectHooks/Names.antt =====
-- A name set through src/dll/ObjectHooks.cpp is reported once.
use dx12track.Prelude.{
  ℕ, ◌*◌, ◌/◌, ◌%◌, ◌^◌, ◌<◌, ◌≡◌, ◌≢◌, refl, ◌∙◌, true, List, [], ◌∷◌, Option, none, some, length,
  lists_eq, find, find-put, arith, ==_refl, Option-cases, inl, inr, if_cases, ◌⊎◌,
}
use dx12track.Events.{wcs_prefix}
use dx12track.Tracker.{ObjectInfo, Hooks, Tracker, on_set_name, emit_renamed}
use dx12track.ObjectHooks.{
  Guid, Methods, s_ok, get_real_set_name, get_real_set_private_data, units_of, extract_debug_name,
  hook_set_name, hook_set_private_data,
}

-- A string's units in memory, without its NUL.
abbrev pub bytes_of : List ℕ → List ℕ
bytes_of [] = []
bytes_of (c ∷ s) = (c % 256) ∷ (c / 256) ∷ bytes_of s

-- What a wchar_t string holds before its NUL.
abbrev pub IsWide : List ℕ → Type 0
IsWide [] = Unit
IsWide (c ∷ s) = ((c ≢ 0) × (c < 2 ^ 16)) × IsWide s

units_of-bytes_of : (s : List ℕ) → IsWide s → units_of (bytes_of s) ≡ s
unfolding units_of
units_of-bytes_of [] w = refl
units_of-bytes_of (c ∷ s) w = ground (arith, units_of-bytes_of s w.1)

length-bytes_of : (s : List ℕ) → length (bytes_of s) ≡ 2 * length s
length-bytes_of [] = omega arith
length-bytes_of (c ∷ s) = omega (arith, length-bytes_of s)

wcs_prefix-wide : (s : List ℕ) → IsWide s → wcs_prefix (length s) s ≡ s
unfolding wcs_prefix
wcs_prefix-wide [] w = refl
wcs_prefix-wide (c ∷ s) w = ground (arith, wcs_prefix-wide s w.1)

-- ExtractDebugName reads back the units of a wide name.
pub extract_debug_name-bytes_of :
    (m : Methods) (s : List ℕ)
    → IsWide s
    → extract_debug_name m Guid.debug_name_w (some (bytes_of s)) ≡ s
unfolding extract_debug_name
extract_debug_name-bytes_of m s w =
    let half : length (bytes_of s) / 2 ≡ length s = omega (arith, length-bytes_of s) in
    rw (half, units_of-bytes_of s w) (wcs_prefix-wide s w)

lists_eq_refl : (s : List ℕ) → lists_eq s s ≡ true
unfolding lists_eq
lists_eq_refl [] = refl
lists_eq_refl (c ∷ s) = ground (arith, lists_eq_refl s)

-- A tracker to which the name of an object is no news.
IsSettled : ℕ → List ℕ → Tracker → Type 0
IsSettled obj name t =
    (find obj t.objects ≡ none)
    ⊎ ((o : ObjectInfo) × (find obj t.objects ≡ some o) × (lists_eq o.name name ≡ true))

on_set_name-settled :
    (obj : ℕ) (name : List ℕ) (t : Tracker) → IsSettled obj name t → on_set_name obj name t ≡ t
unfolding on_set_name IsSettled
on_set_name-settled obj name t (inl e) = rw (e, on_set_name) refl
on_set_name-settled obj name t (inr (o, e, l)) = rw (e, on_set_name) (rw l refl)

on_set_name-IsSettled :
    (obj : ℕ) (name : List ℕ) (t : Tracker) → IsSettled obj name (on_set_name obj name t)
unfolding on_set_name IsSettled emit_renamed
on_set_name-IsSettled obj name t = elim (Option-cases (find obj t.objects)) [
  | inl e ↦ rw (e, on_set_name) (inl e)
  | inr (o, e) ↦
      rw (e, on_set_name)
        (if_cases (IsSettled obj name) (lists_eq o.name name) (λ l. inr (o, e, l))
          (λ _. inr (
            record o { name = name },
            find-put obj obj (record o { name = name }) t.objects ∙ rw (==_refl obj) refl,
            lists_eq_refl name,
          )))
]

-- The second report of a name is none.
pub on_set_name_idempotent :
    (obj : ℕ) (name : List ℕ) (t : Tracker)
    → on_set_name obj name (on_set_name obj name t) ≡ on_set_name obj name t
on_set_name_idempotent obj name t =
    on_set_name-settled obj name (on_set_name obj name t) (on_set_name-IsSettled obj name t)

module _ (m : Methods) (hooks : Hooks) (self : ℕ) (t : Tracker) where
  hook_set_name-forwards :
      (name : List ℕ)
      → IsWide name
      → ((real : ℕ) (guid : Guid) (bytes : Option (List ℕ))
          → m.set_private_data real self guid bytes t ≡ (t, s_ok))
      → (hook_set_private_data m hooks self Guid.debug_name_w (some (bytes_of name)) t ≡ (t, s_ok))
        ⊎ (hook_set_private_data m hooks self Guid.debug_name_w (some (bytes_of name)) t
            ≡ (on_set_name self name t, s_ok))
  unfolding hook_set_private_data
  hook_set_name-forwards name w plain = ground (
    arith,
    plain (get_real_set_private_data hooks self t) Guid.debug_name_w (some (bytes_of name)),
    extract_debug_name-bytes_of m name w,
  )

  -- An object's SetName whose original forwards the name to the object's SetPrivateData, whose own
  -- original does nothing to the tracker, reports the name once: as OnSetName does by itself.
  pub hook_set_name-once :
      (name : List ℕ)
      → IsWide name
      → (get_real_set_name hooks self t ≢ 0)
      → ((real : ℕ)
          → m.set_name real self (some name) t
            ≡ hook_set_private_data m hooks self Guid.debug_name_w (some (bytes_of name)) t)
      → ((real : ℕ) (guid : Guid) (bytes : Option (List ℕ))
          → m.set_private_data real self guid bytes t ≡ (t, s_ok))
      → hook_set_name m hooks self (some name) t ≡ (on_set_name self name t, s_ok)
  unfolding hook_set_name
  hook_set_name-once name w known forwards plain = elim (hook_set_name-forwards name w plain) [
    | inl e ↦ ground (arith, forwards (get_real_set_name hooks self t), e)
    | inr e ↦
        ground
          (arith, forwards (get_real_set_name hooks self t), e, on_set_name_idempotent self name t)
  ]
