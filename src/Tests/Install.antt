-- ===== src/Tests/Install.antt =====
-- The vtables of src/dll/Hooks.cpp at concrete inputs.
use dx12track.Prelude.{ℕ, ◌+◌, ◌≡◌, refl, true, List, [], ◌∷◌, some, none, arith, contains}
use dx12track.Install.{
  Code, Handed, patch_all, patch, patch_device_vtable, patch_factory, already_patched, hook_slots,
  hook_device_slot, hook_slot, store, nothing_patched,
}
use dx12track.Install.Patching.{NeverSelf}
use dx12track.Install.Safe.{patch_all-NeverSelf}

-- The hooks stand from 1000 on, and every page can be made writable.
abbrev code : Code
code = record {
  hook_of = λ i. 1000 + i;
  factory_hook = 2000;
  config_hook = 2001;
  writable = λ v i. true;
}

abbrev driver : ℕ → ℕ → ℕ
driver v i = 500

abbrev handed : List Handed
handed =
    Handed.config 30
    ∷ Handed.factory 20
    ∷ Handed.device 10 (some 4)
    ∷ Handed.device 10 (some 4)
    ∷ Handed.device 11 none
    ∷ []

patch_all-NeverSelf_example : NeverSelf code (patch_all code handed (nothing_patched driver))
unfolding contains
patch_all-NeverSelf_example =
    patch_all-NeverSelf code driver (10 ∷ 11 ∷ 20 ∷ 30 ∷ []) handed (omega arith)
      (refl, (refl, (refl, (refl, (refl, tt)))))
      (record { device = λ i. omega arith; factory = omega arith; config = omega arith })
      (λ v i. record { device = λ i'. omega arith; factory = omega arith; config = omega arith })

-- A ninth vtable is patched each time, so its second time makes a hook its own original.
abbrev nine : List Handed
nine =
    Handed.factory 1
    ∷ Handed.factory 2
    ∷ Handed.factory 3
    ∷ Handed.factory 4
    ∷ Handed.factory 5
    ∷ Handed.factory 6
    ∷ Handed.factory 7
    ∷ Handed.factory 8
    ∷ Handed.device 9 (some 0)
    ∷ Handed.device 9 (some 0)
    ∷ []

ninth_vtable : (patch_all code nine (nothing_patched driver)).originals 8 ≡ 1008
unfolding patch_all patch patch_device_vtable patch_factory already_patched hook_slots
    hook_device_slot hook_slot store contains
ninth_vtable = refl
