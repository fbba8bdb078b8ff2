-- ===== src/Tests/Attach.antt =====
-- The DLL's entry points at concrete inputs (src/dll/DllMain.cpp, Modules.cpp).
use dx12track.Prelude.{
  ℕ, ◌≡◌, refl, true, false, List, [], ◌∷◌, none, some, arith, lists_eq, if◌then◌else◌,
}
use dx12track.Json.{codes}
use dx12track.Wide.{Wide}
use dx12track.Launcher.Args.{Options, default_options}
use dx12track.Launcher.Main.{child_env}
use dx12track.Dll.{
  Environment, fresh, on_attach, Entry, attached, logging, logging_stopped, detached,
}
use dx12track.Dll.Obeys.{Obeys, settings_of, on_attach-Obeys}
use dx12track.Dll.Pdb.{
  DebugEntry, record_of, name_cap, rsds, codeview, is_record, extract_pdb_info, IsWithin,
  extract_pdb_info-IsWithin, extract_pdb_info-short,
}

abbrev asked : Options
asked = record default_options {
  jsonl_path = 97 ∷ [];
  callstacks = true;
  verbose = false;
  wait_debugger = false;
}

-- An environment that is a list of variables.
abbrev look_up : List (Wide × Wide) → Environment
look_up [] name = none
look_up ((n, v) ∷ vars) name = if lists_eq n name then some v else look_up vars name

abbrev inherited : Environment
inherited = look_up (child_env (112 ∷ []) asked)

on_attach-Obeys_example :
    Obeys
      (settings_of (112 ∷ []) asked)
      (on_attach inherited true fresh).0
      (on_attach inherited true fresh).1
unfolding child_env codes lists_eq
on_attach-Obeys_example =
    on_attach-Obeys asked (112 ∷ []) inherited true fresh refl
      (refl, (refl, (refl, (refl, (refl, tt)))))

-- Logging is started again after the DLL was detached.
abbrev entries : List Entry
entries =
    attached inherited true
    ∷ logging (some (97 ∷ [])) true true true
    ∷ logging_stopped
    ∷ detached
    ∷ logging (some (97 ∷ [])) true true true
    ∷ []

abbrev signature : ℕ → ℕ
signature offset = rsds

abbrev whole_entry : DebugEntry
whole_entry = record { type = codeview; address = 100; size_of_data = 60 }

abbrev cut : DebugEntry
cut = record { type = codeview; address = 100; size_of_data = 20 }

extract_pdb_info-IsWithin_example :
    IsWithin signature (whole_entry ∷ []) (extract_pdb_info signature (whole_entry ∷ []))
extract_pdb_info-IsWithin_example =
    extract_pdb_info-IsWithin signature (whole_entry ∷ []) (λ here. (omega arith, omega arith), tt)

extract_pdb_info-short_example :
    extract_pdb_info signature (cut ∷ []) ≡ some (record (record_of cut) { name_len = name_cap })
unfolding is_record
extract_pdb_info-short_example = extract_pdb_info-short signature cut [] refl (omega arith)
