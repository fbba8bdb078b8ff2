-- ===== src/Model/Attach.antt =====
-- TryBindEtw, ApplyGroup, ApplySize, EtwOnCreated and EtwOnDestroyed of src/launcher/Model.cpp.
use dx12track.Prelude.{
  ℕ, Bool, true, false, not, ◌&&◌, ◌||◌, List, [], ◌∷◌, ◌++◌, Option, none, some, find, put, adjust,
  erase, leb, nonzero, ◌==◌, if◌then◌else◌, add64, insert, remove, last?, push_bounded,
}
use dx12track.Events.{ObjectType, is_object_type}
use dx12track.Etw.{obj_type_name}
use dx12track.Json
use dx12track.Json.{Text}
use dx12track.Model.State.{
  MemLoc, is_loc, LiveObject, EtwObj, DeadObj, Model, Env, bind_slack_ns, dead_per_address,
  is_driver_type, compatible, bindable, inc,
}
use dx12track.Model.Join.{
  with_etw, edit_live, edit_etw, side_line, is_placed, eff_loc_of, add_loc, relocate, location_line,
  recompute_loc, recompute_if_heap, driver_agg, can_bind, bind, driver_line,
}

abbrev pub or_one : ℕ → ℕ
or_one n = if nonzero n then n else 1

-- The live object at the ETW object's address, if it may be bound.
unfoldable pub live_match : EtwObj → Model → Option LiveObject
live_match e m = elim (find e.address m.ptr_to_id) [
  | none ↦ none
  | some id ↦ elim (find id m.live) [ none ↦ none | some o ↦ if can_bind e o then some o else none ]
]

-- Was the ETW object created in the lifetime of this destroyed one?
unfoldable pub owned_by : EtwObj → DeadObj → Bool
owned_by e x =
    compatible e.type x.type
    && leb e.created_ts (add64 x.destroyed_ns bind_slack_ns)
    && leb x.prev_destroy_ns (add64 e.created_ts bind_slack_ns)

unfoldable pub find_dead : EtwObj → List DeadObj → Option DeadObj
find_dead e [] = none
find_dead e (x ∷ xs) = if owned_by e x then some x else find_dead e xs

unfoldable pub dead_at : ℕ → Model → List DeadObj
dead_at ptr m = elim (find ptr m.dead_by_ptr) [ none ↦ [] | some xs ↦ xs ]

unfoldable pub late_line : ℕ → EtwObj → DeadObj → ℕ → Text
late_line key e x ts = Json.done (
    Json.b "late" true (
      Json.hex_field "ptr" e.address (
        Json.str "type" (obj_type_name e.type)
          (Json.u "lib_id" key (Json.u "id" x.id (Json.start "etw_bind" ts))))))

unfoldable pub match_late : ℕ → EtwObj → DeadObj → ℕ → Model → Model
match_late key e x ts m = side_line (late_line key e x ts) (
    with_etw (λ s. record s { late_matches = inc s.late_matches })
      (edit_etw key (λ y. record y { orphan_ts = or_one x.destroyed_ns; pending_since_ms = 0 }) m))

-- The last lines of TryBindEtw: queue it, once.
unfoldable pub await_object : Env → ℕ → EtwObj → Model → Model
await_object env key e m =
    if not (nonzero e.pending_since_ms) && not e.expired
    then record m {
      etw_objs = adjust key (λ y. record y { pending_since_ms = or_one env.now_ms }) m.etw_objs;
      pending_q = m.pending_q ++ key ∷ [];
    }
    else m

unfoldable pub try_bind_obj : Env → ℕ → EtwObj → ℕ → Model → Model
try_bind_obj env key e ts m =
    if nonzero e.bound_id || nonzero e.orphan_ts || not (nonzero e.address) || not (bindable e.type)
    then m
    else elim (live_match e m) [
      | some o ↦ bind key o.id ts m
      | none ↦ elim (find_dead e (dead_at e.address m)) [
        | some x ↦ match_late key e x ts m
        | none ↦ await_object env key e m
      ]
    ]

-- TryBindEtw
unfoldable pub try_bind : Env → ℕ → ℕ → Model → Model
try_bind env key ts m = elim (find key m.etw_objs) [
  | none ↦ m
  | some e ↦ try_bind_obj env key e ts m
]

-- ApplyGroup, for the ETW object `key`.
unfoldable pub group_of_live : EtwObj → MemLoc → ℕ → Model → Model
group_of_live e g ts m = elim (find e.bound_id m.live) [
  | none ↦ m
  | some o ↦
      recompute_if_heap o ts
        (recompute_loc e.bound_id ts false (edit_live e.bound_id (λ x. record x { own_loc = g }) m))
]

unfoldable pub apply_group : ℕ → EtwObj → MemLoc → ℕ → Model → Model
apply_group key e g ts m =
    let m' = edit_etw key (λ x. record x { group = g }) m in
    if nonzero e.bound_id then group_of_live e g ts m' else m'

unfoldable pub size_of_live : EtwObj → ℕ → ℕ → Model → Model
size_of_live e size ts m = elim (find e.bound_id m.live) [
  | none ↦ m
  | some o ↦
      if o.driver_size == size
      then m
      else side_line (driver_line o.id size ts)
          (edit_live e.bound_id (λ x. record x { driver_size = size }) m)
]

-- ApplySize: a size of 0 is "not known".
unfoldable pub apply_size : ℕ → EtwObj → ℕ → ℕ → Model → Model
apply_size key e size ts m =
    let sized =
      driver_agg (record e { size = size }) true
        (edit_etw key (λ x. record x { size = size }) (driver_agg e false m)) in
    if not (nonzero size) || size == e.size
    then m
    else if not (nonzero e.bound_id) || not (is_driver_type e.type)
    then sized
    else size_of_live e size ts sized

-- The death of the previous object at the address, as the new object records it.
unfoldable pub last_death : LiveObject → Model → ℕ
last_death o m = elim (last? (dead_at o.object_ptr m)) [
  | none ↦ o.prev_destroy_ns
  | some x ↦ x.destroyed_ns
]

unfoldable pub children_of : ℕ → Model → List ℕ
children_of id m = elim (find id m.children) [ none ↦ [] | some ids ↦ ids ]

-- The first two `if`s of EtwOnCreated.
unfoldable pub enter_maps : LiveObject → Model → Model
enter_maps o m = record m {
  live =
      if nonzero o.object_ptr
      then adjust o.id (λ x. record x { prev_destroy_ns = last_death o m }) m.live
      else m.live;
  ptr_to_id = if nonzero o.object_ptr then put o.object_ptr o.id m.ptr_to_id else m.ptr_to_id;
  children =
      if is_placed o
      then put o.parent_heap_id (insert o.id (children_of o.parent_heap_id m)) m.children
      else m.children;
}

-- Then its first location.
unfoldable pub enter_loc : LiveObject → ℕ → Model → Model
enter_loc o ts m =
    let l = (eff_loc_of o m).0 in
    let counted =
      add_loc (record o { eff_loc = l }) true (edit_live o.id (λ x. record x { eff_loc = l }) m) in
    if is_loc l MemLoc.unknown then counted else recompute_loc o.id ts true counted

-- ETW may have seen the object first.
unfoldable pub adopt_found : ℕ → ℕ → ℕ → Model → Model
adopt_found key id ts m = elim (find key m.etw_objs) [
  | none ↦ m
  | some e ↦ elim (find id m.live) [
    | none ↦ m
    | some o ↦ if can_bind e o then bind key id ts m else m
  ]
]

unfoldable pub adopt : LiveObject → ℕ → Model → Model
adopt o ts m =
    if nonzero o.object_ptr
    then elim (find o.object_ptr m.etw_by_addr) [ none ↦ m | some key ↦ adopt_found key o.id ts m ]
    else m

-- EtwOnCreated, for the object just stored.
unfoldable pub etw_on_created : LiveObject → ℕ → Model → Model
etw_on_created o ts m = adopt o ts (enter_loc o ts (enter_maps o m))

-- The maps of addresses, when the object dies.
unfoldable pub leave_address : LiveObject → ℕ → Model → Model
leave_address o ts m = record m {
  ptr_to_id =
      if nonzero o.object_ptr
      then elim (find o.object_ptr m.ptr_to_id) [
        | none ↦ m.ptr_to_id
        | some id ↦ if id == o.id then erase o.object_ptr m.ptr_to_id else m.ptr_to_id
      ]
      else m.ptr_to_id;
  dead_by_ptr =
      if nonzero o.object_ptr
      then put o.object_ptr
          (push_bounded dead_per_address (dead_at o.object_ptr m) (record {
            id = o.id;
            type = o.type;
            prev_destroy_ns = o.prev_destroy_ns;
            destroyed_ns = ts;
          }))
          m.dead_by_ptr
      else m.dead_by_ptr;
  destroy_hist =
      if nonzero o.object_ptr then m.destroy_hist ++ (ts, o.object_ptr) ∷ [] else m.destroy_hist;
}

-- Its ETW object is an orphan from now on.
unfoldable pub leave_partner : LiveObject → ℕ → Model → Model
leave_partner o ts m = record m {
  live = if nonzero o.etw_key then adjust o.id (λ x. record x { etw_key = 0 }) m.live else m.live;
  etw_objs =
      if nonzero o.etw_key
      then adjust o.etw_key
          (λ e. if e.bound_id == o.id then record e { bound_id = 0; orphan_ts = or_one ts } else e)
          m.etw_objs
      else m.etw_objs;
}

unfoldable pub leave_parent : LiveObject → Model → Model
leave_parent o m = record m {
  children =
      if is_placed o
      then elim (find o.parent_heap_id m.children) [
        | none ↦ m.children
        | some ids ↦ elim (remove o.id ids) [
          | [] ↦ erase o.parent_heap_id m.children
          | x ∷ xs ↦ put o.parent_heap_id (x ∷ xs) m.children
        ]
      ]
      else m.children;
}

-- A placed resource that outlives its heap falls back to its own location.
unfoldable pub fall_back : ℕ → ℕ → Model → Model
fall_back id ts m = elim (find id m.live) [
  | none ↦ m
  | some o ↦
      if is_loc o.eff_loc o.own_loc
      then m
      else side_line (location_line o o.own_loc false ts) (relocate o o.own_loc m)
]

unfoldable pub fall_back_each : List ℕ → ℕ → Model → Model
fall_back_each [] ts m = m
fall_back_each (id ∷ ids) ts m = fall_back_each ids ts (fall_back id ts m)

unfoldable pub leave_children : LiveObject → ℕ → Model → Model
leave_children o ts m =
    if is_object_type o.type ObjectType.heap
    then fall_back_each (children_of o.id m) ts (record m { children = erase o.id m.children })
    else m

-- EtwOnDestroyed, before the object leaves `live`.
unfoldable pub etw_on_destroyed : LiveObject → ℕ → Model → Model
etw_on_destroyed o ts m =
    leave_children o ts
      (leave_parent o (leave_partner o ts (leave_address o ts (add_loc o false m))))
