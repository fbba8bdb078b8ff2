-- ===== src/Model/Join.antt =====
-- Joining ETW objects with the tracked ones: the helpers of src/launcher/Model.cpp that run with
-- the lock held. A reference to an entry of a map is its key.
use dx12track.Prelude.{
  ℕ, Bool, true, false, not, ◌&&◌, ◌||◌, List, [], ◌∷◌, ◌++◌, Option, none, some, find, adjust, leb,
  nonzero, ◌==◌, if◌then◌else◌, add64, sub_clamped,
}
use dx12track.Events.{ObjectType, alloc_index, is_object_type}
use dx12track.Etw.{obj_type_index, obj_type_name}
use dx12track.Json
use dx12track.Json.{Text}
use dx12track.Model.State.{
  MemLoc, is_loc, LiveObject, EtwSnapshot, EtwObj, Model, loc_index, obj_types, bind_slack_ns,
  is_driver_type, compatible, loc_name, heap_bucket, inc, write, write₂,
}

abbrev pub with_etw : (EtwSnapshot → EtwSnapshot) → Model → Model
with_etw f m = record m { s = record (m.s) { etw = f m.s.etw } }

abbrev pub edit_live : ℕ → (LiveObject → LiveObject) → Model → Model
edit_live id f m = record m { live = adjust id f m.live }

abbrev pub edit_etw : ℕ → (EtwObj → EtwObj) → Model → Model
edit_etw key f m = record m { etw_objs = adjust key f m.etw_objs }

-- Lines before Hello wait in a buffer, since there is no time base yet.
unfoldable pub side_line : Text → Model → Model
side_line line m = record m {
  side_prebuf = if m.side_open && not m.hello_seen then m.side_prebuf ++ line else m.side_prebuf;
  side_file = if m.side_open && m.hello_seen then m.side_file ++ line else m.side_file;
}

abbrev pub is_placed : LiveObject → Bool
is_placed o = (alloc_index o.alloc == 2) && nonzero o.parent_heap_id

heap_loc : LiveObject → Option LiveObject → MemLoc × Bool
heap_loc o none = (o.own_loc, false)
heap_loc o (some h) =
    if is_loc h.own_loc MemLoc.unknown then (o.own_loc, false) else (h.own_loc, true)

-- EffLoc: the location, and whether it is the heap's.
unfoldable pub eff_loc_of : LiveObject → Model → MemLoc × Bool
unfolding heap_loc
eff_loc_of o m =
    if is_placed o then heap_loc o (find o.parent_heap_id m.live) else (o.own_loc, false)

-- AddLoc, `positive` for a sign above 0.
unfoldable pub add_loc : LiveObject → Bool → Model → Model
add_loc o positive m =
    let h = heap_bucket o.heap_type in
    let l = loc_index o.eff_loc in
    with_etw
      (λ e. record e {
        loc_bytes =
            if alloc_index o.alloc == 0
            then e.loc_bytes
            else write₂ e.loc_bytes h l (
                if positive
                then add64 (e.loc_bytes h l) o.size_bytes
                else sub_clamped (e.loc_bytes h l) o.size_bytes);
      })
      m

-- The three lines that move an object's bytes to another location.
unfoldable pub relocate : LiveObject → MemLoc → Model → Model
relocate o l m =
    add_loc (record o { eff_loc = l }) true
      (edit_live o.id (λ x. record x { eff_loc = l }) (add_loc o false m))

unfoldable pub location_line : LiveObject → MemLoc → Bool → ℕ → Text
location_line o l via_heap ts = Json.done (
    Json.str "via" (if via_heap then "heap" else "self")
      (Json.str "group" (loc_name l) (Json.u "id" o.id (Json.start "location" ts))))

unfoldable pub report_loc : LiveObject → MemLoc → Bool → ℕ → Model → Model
report_loc o l via_heap ts m =
    side_line (location_line o l via_heap ts)
      (edit_live o.id (λ x. record x { loc_reported = true }) m)

unfoldable pub recompute_at : LiveObject → MemLoc × Bool → ℕ → Bool → Model → Model
recompute_at o (l, via_heap) ts force m =
    let changed = not (is_loc l o.eff_loc) in
    let moved = if changed then relocate o l m else m in
    if changed || force || (not o.loc_reported && not (is_loc l MemLoc.unknown))
    then report_loc o l via_heap ts moved
    else moved

-- RecomputeLoc of the live object `id`.
unfoldable pub recompute_loc : ℕ → ℕ → Bool → Model → Model
recompute_loc id ts force m = elim (find id m.live) [
  | none ↦ m
  | some o ↦ recompute_at o (eff_loc_of o m) ts force m
]

unfoldable pub recompute_each : List ℕ → ℕ → Model → Model
recompute_each [] ts m = m
recompute_each (id ∷ ids) ts m = recompute_each ids ts (recompute_loc id ts false m)

unfoldable pub recompute_children : ℕ → ℕ → Model → Model
recompute_children heap_id ts m = elim (find heap_id m.children) [
  | none ↦ m
  | some ids ↦ recompute_each ids ts m
]

-- DriverAgg, `positive` for a sign above 0.
unfoldable pub driver_agg : EtwObj → Bool → Model → Model
driver_agg e positive m =
    let t = obj_type_index e.type in
    let sized = is_driver_type e.type && nonzero e.size in
    with_etw
      (λ s.
        if leb obj_types t
        then s
        else if positive
        then record s {
          live = write s.live t (inc (s.live t));
          sized = if sized then write s.sized t (inc (s.sized t)) else s.sized;
          bytes = if sized then write s.bytes t (add64 (s.bytes t) e.size) else s.bytes;
        }
        else record s {
          live = write s.live t (sub_clamped (s.live t) 1);
          sized = if sized then write s.sized t (sub_clamped (s.sized t) 1) else s.sized;
          bytes = if sized then write s.bytes t (sub_clamped (s.bytes t) e.size) else s.bytes;
        })
      m

-- FindEtw: the canonical key and its object.
unfoldable pub find_etw : ℕ → Model → Option (ℕ × EtwObj)
find_etw lib_id m = elim (find lib_id m.etw_alias) [
  | none ↦ none
  | some key ↦ elim (find key m.etw_objs) [ none ↦ none | some e ↦ some (key, e) ]
]

unfoldable pub can_bind : EtwObj → LiveObject → Bool
can_bind e o =
    not (nonzero e.bound_id || nonzero e.orphan_ts || not (compatible e.type o.type))
    && leb o.prev_destroy_ns (add64 e.created_ts bind_slack_ns)

-- The first lines of Bind: a live object that changes its partner lets the old one go.
unfoldable pub release_partner : ℕ → LiveObject → Model → Model
release_partner key o m = record m {
  etw_objs =
      if nonzero o.etw_key && not (o.etw_key == key)
      then adjust o.etw_key (λ x. record x { bound_id = 0 }) m.etw_objs
      else m.etw_objs;
}

unfoldable pub bind_line : ℕ → EtwObj → LiveObject → ℕ → Text
bind_line key e o ts = Json.done (
    Json.hex_field "ptr" o.object_ptr (
      Json.str "type" (obj_type_name e.type)
        (Json.u "lib_id" key (Json.u "id" o.id (Json.start "etw_bind" ts)))))

unfoldable pub link : ℕ → EtwObj → LiveObject → ℕ → Model → Model
link key e o ts m =
    edit_live o.id (λ x. record x { etw_key = key; own_loc = e.group })
      (side_line (bind_line key e o ts) (
        with_etw (λ s. record s { binds = inc s.binds })
          (edit_etw key (λ x. record x { bound_id = o.id; pending_since_ms = 0 }) m)))

pub driver_line : ℕ → ℕ → ℕ → Text
driver_line id size ts =
    Json.done (Json.u "bytes" size (Json.u "id" id (Json.start "driver_size" ts)))

unfoldable pub note_driver_size : EtwObj → LiveObject → ℕ → Model → Model
note_driver_size e o ts m =
    let noted = edit_live o.id (λ x. record x { driver_size = e.size }) m in
    if is_driver_type e.type
    then (if nonzero e.size then side_line (driver_line o.id e.size ts) noted else noted)
    else m

unfoldable pub recompute_if_heap : LiveObject → ℕ → Model → Model
recompute_if_heap o ts m =
    if is_object_type o.type ObjectType.heap then recompute_children o.id ts m else m

unfoldable pub bind_pair : ℕ → EtwObj → LiveObject → ℕ → Model → Model
bind_pair key e o ts m = note_driver_size e o ts (
    recompute_if_heap o ts
      (recompute_loc o.id ts (not o.loc_reported) (link key e o ts (release_partner key o m))))

-- Bind of the ETW object `key` to the live object `id`.
unfoldable pub bind : ℕ → ℕ → ℕ → Model → Model
bind key id ts m = elim (find key m.etw_objs) [
  | none ↦ m
  | some e ↦ elim (find id m.live) [ none ↦ m | some o ↦ bind_pair key e o ts m ]
]
