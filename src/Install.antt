-- ===== src/Install.antt =====
-- How the DLL hooks a device (src/dll/Hooks.cpp): the vtables that have been patched, the memory of the
-- vtables, and the originals, which all vtables share. What CreateDevice, GetInterface and the factory
-- answer the application is an argument, as is what VirtualProtect answers. MinHook's part and the
-- diagnostics are left out.
pub mod Patching
pub mod Safe
use dx12track.Prelude.{
  ℕ, Bool, true, false, List, [], ◌∷◌, ◌++◌, Option, none, some, contains, length, ltb, leb, ◌==◌,
  if◌then◌else◌,
}

-- A method of the device that is hooked: its index in the vtable, and the first version that has it.
pub record Slot : Type 0 where
  pub index : ℕ
  pub version : ℕ

-- The addresses of the hooks, and whether VirtualProtect succeeds on a slot of a vtable.
pub record Code : Type 0 where
  pub hook_of : ℕ → ℕ
  pub factory_hook : ℕ
  pub config_hook : ℕ
  pub writable : ℕ → ℕ → Bool

pub record Install : Type 0 where
  pub patched : List ℕ
  pub memory : ℕ → ℕ → ℕ
  pub originals : ℕ → ℕ
  pub factory_original : ℕ
  pub config_original : ℕ

abbrev pub max_patched : ℕ
max_patched = 8

-- AlreadyPatched: a vtable that does not fit is not remembered.
unfoldable pub already_patched : ℕ → Install → Bool × Install
already_patched vt s =
    if contains vt s.patched
    then (true, s)
    else if ltb (length s.patched) max_patched
    then (false, record s { patched = s.patched ++ vt ∷ [] })
    else (false, s)

unfoldable pub store : ℕ → ℕ → ℕ → (ℕ → ℕ → ℕ) → ℕ → ℕ → ℕ
store vt index value memory v i =
    if v == vt then (if i == index then value else memory v i) else memory v i

-- PatchSlot, with what it writes to `out_prev`.
unfoldable pub hook_slot : Code → ℕ → ℕ → ℕ → Install → Install × Option ℕ
hook_slot code vt index hook s =
    if code.writable vt index
    then (record s { memory = store vt index hook s.memory }, some (s.memory vt index))
    else (s, none)

unfoldable pub hook_device_slot : Code → ℕ → ℕ → Install → Install
hook_device_slot code vt index s =
    let (s', prev) = hook_slot code vt index (code.hook_of index) s in
    elim prev [
      | none ↦ s'
      | some f ↦ record s' { originals = λ i. if i == index then f else s'.originals i }
    ]

abbrev pub slots_of : ℕ → List ℕ → List Slot
slots_of version [] = []
slots_of version (i ∷ is) = (record { index = i; version = version }) ∷ slots_of version is

abbrev pub device_slots : List Slot
device_slots =
    slots_of 0 (8 ∷ 9 ∷ 10 ∷ 11 ∷ 12 ∷ 14 ∷ 16 ∷ 27 ∷ 28 ∷ 29 ∷ 30 ∷ 36 ∷ 39 ∷ 41 ∷ [])
    ++ slots_of 1 (46 ∷ [])
    ++ slots_of 2 (47 ∷ [])
    ++ slots_of 4 (51 ∷ 53 ∷ 54 ∷ 55 ∷ [])
    ++ slots_of 8 (69 ∷ 70 ∷ [])
    ++ slots_of 9 (75 ∷ [])
    ++ slots_of 10 (76 ∷ 77 ∷ 78 ∷ [])

unfoldable pub hook_slots : Code → ℕ → ℕ → List Slot → Install → Install
hook_slots code vt version [] s = s
hook_slots code vt version (k ∷ ks) s =
    hook_slots code vt version ks
      (if leb k.version version then hook_device_slot code vt k.index s else s)

-- `version` is what ProbeMaxDeviceVersion answers, none for -1.
unfoldable pub patch_device_vtable : Code → ℕ → Option ℕ → Install → Install
patch_device_vtable code vt version s =
    let (known, s') = already_patched vt s in
    if known then s' else elim version [ none ↦ s' | some v ↦ hook_slots code vt v device_slots s' ]

-- The vtable of a factory that CreateDeviceFactory answers.
unfoldable pub patch_factory : Code → ℕ → Install → Install
patch_factory code vt s =
    let (known, s') = already_patched vt s in
    let (s'', prev) = hook_slot code vt 9 code.factory_hook s' in
    if known then s' else elim prev [ none ↦ s'' | some f ↦ record s'' { factory_original = f } ]

-- The vtable of an ID3D12SDKConfiguration1 that GetInterface answers.
unfoldable pub patch_config : Code → ℕ → Install → Install
patch_config code vt s =
    let (known, s') = already_patched vt s in
    let (s'', prev) = hook_slot code vt 4 code.config_hook s' in
    if known then s' else elim prev [ none ↦ s'' | some f ↦ record s'' { config_original = f } ]

-- An object that the application is handed, by its vtable.
pub data Handed : Type 0 where
  device : ℕ → Option ℕ → Handed
  factory config : ℕ → Handed

unfoldable pub patch : Code → Handed → Install → Install
patch code (Handed.device vt version) s = patch_device_vtable code vt version s
patch code (Handed.factory vt) s = patch_factory code vt s
patch code (Handed.config vt) s = patch_config code vt s

unfoldable pub patch_all : Code → List Handed → Install → Install
patch_all code [] s = s
patch_all code (h ∷ hs) s = patch_all code hs (patch code h s)

abbrev pub nothing_patched : (ℕ → ℕ → ℕ) → Install
nothing_patched memory = record {
  patched = [];
  memory = memory;
  originals = λ i. 0;
  factory_original = 0;
  config_original = 0;
}
