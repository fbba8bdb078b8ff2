-- ===== src/Log.antt =====
-- The JSON log of the injected DLL (src/dll/JsonLog.cpp): its file, and the line of every event. A
-- `LogPayload` is the raw buffer seen through each of Append's casts, `bytes` its size. The mutex
-- serialises the calls. What CreateFileW and WriteFile answer is an argument.
use Prim.Native.String.{String}
use dx12track.Prelude.{
  ℕ, ◌+◌, ◌*◌, ◌/◌, ◌%◌, Bool, true, false, List, [], ◌∷◌, ◌++◌, take, ltb, nonzero, ◌==◌,
  if◌then◌else◌,
}
use dx12track.Events.{
  EventKind, AllocationKind, HelloPayload, CreatedPayload, RenamedPayload, DestroyedPayload,
  GoodbyePayload, max_name_chars, max_callstack_frames, sizeof_hello, sizeof_created,
  sizeof_renamed, sizeof_destroyed, sizeof_goodbye, residency_priority_name, object_type_name,
  allocation_kind_name, heap_type_name, dimension_name, alloc_index,
}
use dx12track.Json.{Text, codes, digit, decimal, hex, append_json_string}

pub record ModuleLoadedPayload : Type 0 where
  pub base : ℕ
  pub size : ℕ
  pub timestamp : ℕ
  pub pdb_age : ℕ
  pub pdb_guid : ℕ → ℕ
  pub name : List ℕ
  pub pdb_name : List ℕ

pub record ModuleUnloadedPayload : Type 0 where
  pub base : ℕ

pub record DiagnosticPayload : Type 0 where
  pub message : List ℕ

pub record ResidencyPriorityPayload : Type 0 where
  pub id : ℕ
  pub object_ptr : ℕ
  pub priority : ℕ

abbrev pub max_diagnostic_chars : ℕ
max_diagnostic_chars = 512

abbrev pub sizeof_module_loaded : ℕ
sizeof_module_loaded = 40 + 4 * max_name_chars

abbrev pub sizeof_module_unloaded : ℕ
sizeof_module_unloaded = 8

abbrev pub sizeof_residency_priority : ℕ
sizeof_residency_priority = 24

pub record LogPayload : Type 0 where
  pub as_hello : HelloPayload
  pub as_created : CreatedPayload
  pub as_renamed : RenamedPayload
  pub as_destroyed : DestroyedPayload
  pub as_goodbye : GoodbyePayload
  pub as_module_loaded : ModuleLoadedPayload
  pub as_module_unloaded : ModuleUnloadedPayload
  pub as_diagnostic : DiagnosticPayload
  pub as_residency_priority : ResidencyPriorityPayload

unfoldable pub append_key : String → Text → Text
append_key k out = out ++ 34 ∷ (codes k ++ 34 ∷ 58 ∷ [])

unfoldable pub comma_key : String → Text → Text
comma_key k out = append_key k (out ++ 44 ∷ [])

unfoldable pub kv_u64 : String → ℕ → Text → Text
kv_u64 k v out = comma_key k out ++ decimal v

unfoldable pub kv_str : String → String → Text → Text
kv_str k v out = comma_key k out ++ 34 ∷ (codes v ++ 34 ∷ [])

unfoldable pub kv_hex : String → ℕ → Text → Text
kv_hex k v out = comma_key k out ++ 34 ∷ (hex v ++ 34 ∷ [])

unfoldable pub kv_name : (ℕ → Text) → String → List ℕ → Text → Text
kv_name utf8 k v out = append_json_string utf8 (comma_key k out) max_name_chars v

-- The addresses of a stack, from the second one on after a comma.
unfoldable pub frame_list : List ℕ → Text
frame_list [] = []
frame_list (f ∷ []) = 34 ∷ (hex f ++ 34 ∷ [])
frame_list (f ∷ g ∷ fs) = 34 ∷ (hex f ++ 34 ∷ 44 ∷ frame_list (g ∷ fs))

-- The frame count is capped at the array's size.
unfoldable pub stack_text : ℕ → List ℕ → Text → Text
stack_text frame_count frames out =
    let n = if ltb max_callstack_frames frame_count then max_callstack_frames else frame_count in
    comma_key "stack" out ++ 91 ∷ (frame_list (take n frames) ++ 93 ∷ [])

unfoldable pub hello_fields : (ℕ → Text) → HelloPayload → Text → Text
hello_fields utf8 p out = kv_name utf8 "exe" p.exe_path (
    kv_u64 "qpc_start" p.qpc_start (
      kv_u64 "qpc_freq" p.qpc_frequency
        (kv_u64 "protocol" p.protocol_version (kv_u64 "pid" p.pid out))))

unfoldable pub created_fields : (ℕ → Text) → CreatedPayload → Text → Text
created_fields utf8 p out₀ =
    let out₁ = kv_hex "ptr" p.object_ptr (kv_u64 "id" p.id out₀) in
    let out₂ =
      kv_str "alloc" (allocation_kind_name p.alloc)
        (kv_str "type" (object_type_name p.type) out₁) in
    let out₃ =
      kv_str "dim" (dimension_name p.dimension) (kv_str "heap" (heap_type_name p.heap_type) out₂) in
    let out₄ =
      kv_u64 "parent_heap_id" p.parent_heap_id
        (kv_u64 "size" p.size_bytes (kv_u64 "format" p.format out₃)) in
    let out₅ =
      if nonzero p.parent_heap_ptr then kv_hex "parent_heap_ptr" p.parent_heap_ptr out₄ else out₄ in
    let out₆ =
      if alloc_index p.alloc == alloc_index AllocationKind.placed
      then kv_u64 "heap_offset" p.heap_offset out₅
      else out₅ in
    let out₇ = kv_name utf8 "name" p.name out₆ in
    if nonzero p.frame_count then stack_text p.frame_count p.frames out₇ else out₇

-- "%02x" of a byte of the GUID.
unfoldable pub guid_bytes : (ℕ → ℕ) → List ℕ → Text
guid_bytes g [] = []
guid_bytes g (i ∷ is) = digit (g i / 16) ∷ digit (g i % 16) ∷ guid_bytes g is

unfoldable pub guid_text : (ℕ → ℕ) → Text
guid_text g =
    guid_bytes g (3 ∷ 2 ∷ 1 ∷ 0 ∷ [])
    ++ 45 ∷ guid_bytes g (5 ∷ 4 ∷ [])
    ++ 45 ∷ guid_bytes g (7 ∷ 6 ∷ [])
    ++ 45 ∷ guid_bytes g (8 ∷ 9 ∷ [])
    ++ 45 ∷ guid_bytes g (10 ∷ 11 ∷ 12 ∷ 13 ∷ 14 ∷ 15 ∷ [])

unfoldable pub module_fields : (ℕ → Text) → ModuleLoadedPayload → Text → Text
module_fields utf8 p out₀ =
    let out₁ =
      kv_u64 "pdb_age" p.pdb_age
        (kv_u64 "timestamp" p.timestamp (kv_u64 "size" p.size (kv_hex "base" p.base out₀))) in
    let out₂ = comma_key "pdb_guid" out₁ ++ 34 ∷ (guid_text p.pdb_guid ++ 34 ∷ []) in
    kv_name utf8 "pdb_name" p.pdb_name (kv_name utf8 "name" p.name out₂)

unfoldable pub residency_fields : ResidencyPriorityPayload → Text → Text
residency_fields p out =
    kv_str "priority_name" (residency_priority_name p.priority)
      (kv_u64 "priority" p.priority (kv_hex "object_ptr" p.object_ptr (kv_u64 "id" p.id out)))

-- The message's bytes stand for themselves.
unfoldable pub diagnostic_fields : DiagnosticPayload → Text → Text
diagnostic_fields p out =
    append_json_string (λ c. c ∷ []) (comma_key "msg" out) max_diagnostic_chars p.message

-- {"event":"<name>","ts_ns":<ts>
unfoldable pub opening : String → ℕ → Text
opening name ts = kv_u64 "ts_ns" ts (append_key "event" (123 ∷ []) ++ 34 ∷ (codes name ++ 34 ∷ []))

abbrev pub whole : ℕ → ℕ → (Text → Text) → Text → Text
whole bytes size fields out = if ltb bytes size then out else fields out

-- The switch: the fields of a payload that is whole.
unfoldable pub body : (ℕ → Text) → EventKind → ℕ → LogPayload → ℕ → Text
body utf8 EventKind.hello ts p bytes =
    whole bytes sizeof_hello (hello_fields utf8 p.as_hello) (opening "hello" ts)
body utf8 EventKind.created ts p bytes =
    whole bytes sizeof_created (created_fields utf8 p.as_created) (opening "created" ts)
body utf8 EventKind.renamed ts p bytes =
    whole bytes sizeof_renamed
      (λ out. kv_name utf8 "name" p.as_renamed.name (kv_u64 "id" p.as_renamed.id out))
      (opening "renamed" ts)
body utf8 EventKind.destroyed ts p bytes =
    whole bytes sizeof_destroyed (kv_u64 "id" p.as_destroyed.id) (opening "destroyed" ts)
body utf8 EventKind.goodbye ts p bytes =
    whole bytes sizeof_goodbye (kv_u64 "exit_code" p.as_goodbye.exit_code) (opening "goodbye" ts)
body utf8 EventKind.module_loaded ts p bytes =
    whole bytes sizeof_module_loaded (module_fields utf8 p.as_module_loaded)
      (opening "module_loaded" ts)
body utf8 EventKind.module_unloaded ts p bytes =
    whole bytes sizeof_module_unloaded (kv_hex "base" p.as_module_unloaded.base)
      (opening "module_unloaded" ts)
body utf8 EventKind.residency_priority ts p bytes =
    whole bytes sizeof_residency_priority (residency_fields p.as_residency_priority)
      (opening "residency_priority" ts)
body utf8 EventKind.diagnostic ts p bytes =
    whole bytes max_diagnostic_chars (diagnostic_fields p.as_diagnostic) (opening "diag" ts)

-- `is_open` is `file_ != INVALID_HANDLE_VALUE`, `text` what the file holds.
pub record JsonLog : Type 0 where
  pub is_open : Bool
  pub text : Text

-- Open truncates the file; a failure leaves the log closed.
unfoldable pub open_log : Bool → JsonLog → JsonLog
open_log created log =
    if created then record { is_open = true; text = [] } else record log { is_open = false }

unfoldable pub close_log : JsonLog → JsonLog
close_log log = record log { is_open = false }

-- How much a WriteFile wrote is not looked at.
unfoldable pub write_line : ℕ → Text → JsonLog → JsonLog
write_line written line log =
    if log.is_open then record log { text = log.text ++ take written line } else log

unfoldable pub append : (ℕ → Text) → ℕ → EventKind → ℕ → LogPayload → ℕ → JsonLog → JsonLog
append utf8 written kind ts p bytes log =
    if log.is_open then write_line written (body utf8 kind ts p bytes ++ 125 ∷ 10 ∷ []) log else log
