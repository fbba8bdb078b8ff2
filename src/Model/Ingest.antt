-- ===== src/Model/Ingest.antt =====
-- Model::OnEvent of src/launcher/Model.cpp, one function for each kind of event, and
-- MarkChildExited. A `Payload` is the raw buffer seen through each of the handler's casts; `bytes` is
-- its length.
use dx12track.Prelude.{
  ℕ, Bool, true, false, not, ◌&&◌, [], ◌++◌, none, some, find, put, adjust, erase, ltb,
  if◌then◌else◌, add64, sub_guarded, length, push_bounded,
}
use dx12track.Events.{
  EventHeader, EventKind, AllocationKind, HelloPayload, CreatedPayload, RenamedPayload,
  DestroyedPayload, GoodbyePayload, max_name_chars, sizeof_hello, sizeof_created, sizeof_renamed,
  sizeof_destroyed, sizeof_goodbye, wcs_prefix, heap_type_name, alloc_index, object_type_index,
}
use dx12track.Json
use dx12track.Json.{Text, codes}
use dx12track.Model.State.{
  MemLoc, LiveObject, ActivityLine, Model, Env, ticks_to_ns, heap_bucket, etw_pending_timeout_ms,
  inc, write, write₂,
}
use dx12track.Model.Attach.{etw_on_created, etw_on_destroyed}

pub record Payload : Type 0 where
  pub as_hello : HelloPayload
  pub as_created : CreatedPayload
  pub as_renamed : RenamedPayload
  pub as_destroyed : DestroyedPayload
  pub as_goodbye : GoodbyePayload

abbrev pub recent_limit : ℕ
recent_limit = 32

unfoldable pub hello_line : (ℕ → Text) → ℕ → HelloPayload → Model → Text
hello_line utf8 ts p m = Json.done (
    Json.wstr utf8 "main_log" m.main_log_path (
      Json.u "pending_timeout_ms" etw_pending_timeout_ms (
        Json.u "rundown_interval_ms" m.rundown_interval_ms (
          Json.wstr utf8 "session" m.session_name (
            Json.u "qpc_start" p.qpc_start (
              Json.u "qpc_freq" p.qpc_frequency
                (Json.u "pid" p.pid (Json.u "etw_format" 1 (Json.start "etw_hello" ts)))))))))

unfoldable pub on_hello : (ℕ → Text) → ℕ → HelloPayload → Model → Model
on_hello utf8 ts p m =
    let announce = m.etw_enabled && not m.hello_seen && m.side_open in
    record m {
      s = record (m.s) {
        pid = p.pid;
        exe_path = wcs_prefix max_name_chars p.exe_path;
        dll_start_ns = ts;
      };
      qpc_freq = p.qpc_frequency;
      qpc_start = p.qpc_start;
      qpc_start_ns = ticks_to_ns p.qpc_start p.qpc_frequency;
      hello_seen = true;
      side_file =
          if announce
          then m.side_file ++ (hello_line utf8 ts p m ++ m.side_prebuf)
          else m.side_file;
      side_prebuf = if announce then [] else m.side_prebuf;
    }

unfoldable pub stored_object : ℕ → CreatedPayload → LiveObject
stored_object ts p = record {
  id = p.id;
  type = p.type;
  alloc = p.alloc;
  heap_type = p.heap_type;
  dimension = p.dimension;
  format = p.format;
  size_bytes = p.size_bytes;
  parent_heap_id = p.parent_heap_id;
  created_ns = ts;
  object_ptr = p.object_ptr;
  name = wcs_prefix max_name_chars p.name;
  prev_destroy_ns = 0;
  etw_key = 0;
  own_loc = MemLoc.unknown;
  eff_loc = MemLoc.unknown;
  loc_reported = false;
  driver_size = 0;
}

unfoldable pub heap_label_of : LiveObject → Text
heap_label_of o = elim o.alloc [
  | AllocationKind.none ↦ []
  | AllocationKind.committed ↦ codes "Committed/" ++ codes (heap_type_name o.heap_type)
  | AllocationKind.placed ↦ codes "Placed/" ++ codes (heap_type_name o.heap_type)
  | AllocationKind.reserved ↦ codes "Reserved/" ++ codes (heap_type_name o.heap_type)
  | AllocationKind.heap ↦ codes "Heap/" ++ codes (heap_type_name o.heap_type)
]

unfoldable pub activity_line : Bool → ℕ → LiveObject → ActivityLine
activity_line created ts o = record {
  ts_ns = ts;
  created = created;
  type = o.type;
  id = o.id;
  size_bytes = o.size_bytes;
  name = o.name;
  heap_label = if created then heap_label_of o else [];
}

-- The totals, the object stored.
unfoldable pub count_in : LiveObject → Model → Model
count_in o m =
    let hb = heap_bucket o.heap_type in
    let ab = alloc_index o.alloc in
    let t = object_type_index o.type in
    let live' = put o.id o m.live in
    record m {
      live = live';
      s = record (m.s) {
        totals = record {
          bytes = write₂ m.s.totals.bytes hb ab (add64 (m.s.totals.bytes hb ab) o.size_bytes);
          counts = write₂ m.s.totals.counts hb ab (inc (m.s.totals.counts hb ab));
        };
        live_count = length live';
        live_bytes = add64 m.s.live_bytes o.size_bytes;
        per_type_counts = write m.s.per_type_counts t (inc (m.s.per_type_counts t));
      };
    }

unfoldable pub push_activity : ActivityLine → Model → Model
push_activity line m = record m {
  s = record (m.s) { recent = push_bounded recent_limit m.s.recent line };
}

unfoldable pub on_created : ℕ → CreatedPayload → Model → Model
on_created ts p m =
    let o = stored_object ts p in
    let counted = count_in o m in
    push_activity (activity_line true ts o)
      (if m.etw_enabled then etw_on_created o ts counted else counted)

unfoldable pub on_renamed : RenamedPayload → Model → Model
on_renamed p m = record m {
  live = adjust p.id (λ o. record o { name = wcs_prefix max_name_chars p.name }) m.live;
}

-- The totals without the object, and the object erased.
unfoldable pub count_out : LiveObject → Model → Model
count_out o m =
    let hb = heap_bucket o.heap_type in
    let ab = alloc_index o.alloc in
    let t = object_type_index o.type in
    let live' = erase o.id m.live in
    record m {
      live = live';
      s = record (m.s) {
        totals = record {
          bytes = write₂ m.s.totals.bytes hb ab (sub_guarded (m.s.totals.bytes hb ab) o.size_bytes);
          counts = write₂ m.s.totals.counts hb ab (sub_guarded (m.s.totals.counts hb ab) 1);
        };
        live_count = length live';
        live_bytes = sub_guarded m.s.live_bytes o.size_bytes;
        per_type_counts = write m.s.per_type_counts t (sub_guarded (m.s.per_type_counts t) 1);
      };
    }

unfoldable pub on_destroyed : ℕ → DestroyedPayload → Model → Model
on_destroyed ts p m = elim (find p.id m.live) [
  | none ↦ m
  | some o ↦ count_out o (
      push_activity (activity_line false ts o)
        (if m.etw_enabled then etw_on_destroyed o ts m else m))
]

unfoldable pub mark_child_exited : ℕ → Model → Model
mark_child_exited exit_code m = record m {
  s = record (m.s) { child_exited = true; child_exit_code = exit_code };
}

-- A payload shorter than its structure is ignored.
unfoldable pub dispatch : Env → ℕ → EventKind → Payload → ℕ → Model → Model
dispatch env ts EventKind.hello p bytes m =
    if ltb bytes sizeof_hello then m else on_hello env.utf8 ts p.as_hello m
dispatch env ts EventKind.created p bytes m =
    if ltb bytes sizeof_created then m else on_created ts p.as_created m
dispatch env ts EventKind.renamed p bytes m =
    if ltb bytes sizeof_renamed then m else on_renamed p.as_renamed m
dispatch env ts EventKind.destroyed p bytes m =
    if ltb bytes sizeof_destroyed then m else on_destroyed ts p.as_destroyed m
dispatch env ts EventKind.goodbye p bytes m =
    if ltb bytes sizeof_goodbye then m else mark_child_exited p.as_goodbye.exit_code m
dispatch env ts _ p bytes m = m

unfoldable pub on_event : Env → EventHeader → Payload → ℕ → Model → Model
on_event env hdr p bytes m =
    dispatch env hdr.ts_ns hdr.kind p bytes
      (record m { s = record (m.s) { latest_ns = hdr.ts_ns } })
