-- ===== src/Tests/Dll.antt =====
-- Runs of the DLL's tracker, the pipe and the JSON strings at concrete inputs.
use dx12track.Prelude.{
  ℕ, ◌≡◌, refl, true, List, [], ◌∷◌, ◌++◌, some, find, put, arith, ◌==◌, if◌then◌else◌,
}
use dx12track.Events.{ObjectType, AllocationKind}
use dx12track.Json.{Text, append_json_string}
use dx12track.Json.Strings.{string_end, Place, append_json_string-closes}
use dx12track.Tracker.{
  ObjectInfo, Hooks, Call, VTablePatch, registers, releases, names, run, empty_tracker,
  lookup_vtable, step, register, patch_vtable_if_new, patch_new, patch_slot, emit_created,
}
use dx12track.Tracker.Ids.{IsOnce, run-IsOnce}
use dx12track.Tracker.Patches.{IsSafe, lookup_vtable-IsSafe}
use dx12track.Pipe.{WireHeader, reader_loop, send, write_file, header_bytes, le}
use dx12track.Pipe.RoundTrip.{Message, deliver_all, reader_loop-send_all}

-- Every object has the vtable at 0x500, and every page can be made writable.
abbrev pub hooks : Hooks
hooks = record {
  release = 0x901;
  setprivatedata = 0x902;
  setname = 0x903;
  vtable_of = λ _. 0x500;
  writable = λ _ _. true;
}

abbrev pub fence : ObjectInfo
fence = record {
  id = 0;
  type = ObjectType.fence;
  alloc = AllocationKind.none;
  heap_type = 0;
  dimension = 0;
  format = 0;
  size_bytes = 0;
  parent_heap_id = 0;
  parent_heap_ptr = 0;
  heap_offset = 0;
  object_ptr = 0;
  name = [];
  frame_count = 0;
  frames = [];
}

-- The same address twice, a name, and an end.
abbrev calls : List Call
calls =
    registers 0x1000 fence
    ∷ registers 0x1000 fence
    ∷ registers 0x2000 fence
    ∷ names 0x1000 (97 ∷ [])
    ∷ releases 0x1000
    ∷ []

-- Before the first patch, the slot of Release holds the hook itself.
abbrev pub slots : ℕ → ℕ → ℕ
slots vtable i = if i == 2 then 0x901 else 0x700

run-IsOnce_example : IsOnce (run hooks calls (empty_tracker slots))
run-IsOnce_example = run-IsOnce hooks slots calls (omega arith)

abbrev test_patch : VTablePatch
test_patch = record { real_release = 0; real_setprivatedata = 0x700; real_setname = 0x700 }

lookup_vtable-IsSafe_example : IsSafe hooks test_patch
unfolding lookup_vtable run step register patch_vtable_if_new patch_new patch_slot find emit_created
    put
lookup_vtable-IsSafe_example =
    lookup_vtable-IsSafe hooks slots (registers 0x1000 fence ∷ [])
      (record { release = omega arith; setprivatedata = omega arith; setname = omega arith }) 0x2000
      test_patch refl

abbrev messages : List Message
messages =
    (record { ts_ns = 7; kind = 4; payload = 1 ∷ 0 ∷ 0 ∷ 0 ∷ 0 ∷ 0 ∷ 0 ∷ 0 ∷ [] })
    ∷ (record { ts_ns = 300; kind = 5; payload = [] })
    ∷ []

-- The bytes of both messages, cut inside the first header.
abbrev pieces : List (List ℕ)
pieces =
    (50 ∷ 49 ∷ 88 ∷ [])
    ∷ (68 ∷ 8 ∷ 0 ∷ 0 ∷ 0 ∷ 7 ∷ 0 ∷ 0 ∷ 0 ∷ 0 ∷ 0 ∷ 0 ∷ 0 ∷ 4 ∷ 0 ∷ 0 ∷ 0 ∷ 0 ∷ 0 ∷ 0 ∷ 0 ∷ 1 ∷ 0
        ∷ [])
    ∷ (0 ∷ 0 ∷ 0 ∷ 0 ∷ 0 ∷ 0 ∷ 50 ∷ 49 ∷ 88 ∷ 68 ∷ 0 ∷ 0 ∷ 0 ∷ 0 ∷ 44 ∷ 1 ∷ 0 ∷ 0 ∷ 0 ∷ 0 ∷ 0 ∷ 0
        ∷ 5 ∷ 0 ∷ 0 ∷ 0 ∷ 0 ∷ 0 ∷ 0 ∷ 0 ∷ [])
    ∷ []

-- A handler that keeps the kinds it has seen.
abbrev keep_kind : WireHeader → List ℕ → List ℕ → List ℕ
keep_kind hdr payload seen = seen ++ hdr.kind ∷ []

reader_loop-send_all_example : reader_loop keep_kind 5 pieces [] ≡ deliver_all keep_kind messages []
unfolding send write_file header_bytes le
reader_loop-send_all_example =
    reader_loop-send_all keep_kind messages 5 pieces []
      (
        record { payload = omega arith; ts_ns = omega arith; kind = omega arith },
        (record { payload = omega arith; ts_ns = omega arith; kind = omega arith }, tt),
      )
      (omega arith) (omega arith, (omega arith, (omega arith, tt))) refl

-- A one-byte code page.
abbrev latin : ℕ → Text
latin c = c ∷ []

append_json_string-closes_example :
    (string : Text) × (append_json_string latin [] 4 (97 ∷ 34 ∷ 10 ∷ 0 ∷ 98 ∷ []) ++ 125 ∷ []
      ≡ 34 ∷ string)
    × (string_end Place.between string ≡ some (125 ∷ []))
append_json_string-closes_example =
    append_json_string-closes latin [] 4 (97 ∷ 34 ∷ 10 ∷ 0 ∷ 98 ∷ []) (125 ∷ []) (λ c p. (p, tt))
