-- ===== src/Model/Sink.antt =====
-- Model's implementation of etw::Sink (src/launcher/Model.cpp): the calls of the ETW consumer
-- thread. The arithmetic on double of OnEtwCounter is a parameter.
use dx12track.Prelude.{
  ℕ, ℤ, Bool, true, false, not, ◌&&◌, ◌||◌, List, [], ◌∷◌, ◌++◌, Option, none, some, find, put,
  adjust, erase, nonzero, ◌==◌, if◌then◌else◌,
}
use dx12track.Etw.{ObjType, Group, GroupChange, ResidencyOp, is_obj_type, obj_type_name}
use dx12track.Json
use dx12track.Json.{Text}
use dx12track.Model.State.{
  MemLoc, is_loc, EtwObj, Model, Env, from_group, loc_name, residency_op_name, inc,
}
use dx12track.Model.Join.{with_etw, side_line, driver_agg, find_etw}
use dx12track.Model.Attach.{try_bind, apply_group, apply_size}
use dx12track.Model.Session.{conv_ts, sample_for, is_after_exit}

unfoldable pub new_etw_obj : ObjType → ℕ → Group → ℕ → EtwObj
new_etw_obj type size group created_ts = record {
  type = type;
  address = 0;
  size = size;
  group = from_group group;
  created_ts = created_ts;
  bound_id = 0;
  orphan_ts = 0;
  pending_since_ms = 0;
  expired = false;
  aliases = [];
}

-- etw_objs_.emplace keeps an entry that is there.
unfoldable pub emplace : ℕ → EtwObj → Model → Model
emplace lib_id e m = record m {
  etw_objs = elim (find lib_id m.etw_objs) [ none ↦ put lib_id e m.etw_objs | some _ ↦ m.etw_objs ];
}

unfoldable pub on_etw_object_created : ℤ → ℕ → ObjType → ℕ → Group → Model → Model
on_etw_object_created ts lib_id type size group m =
    let e = new_etw_obj type size group (conv_ts ts m) in
    let entered = emplace lib_id e (driver_agg e true m) in
    let known : Bool = elim (find lib_id m.etw_alias) [ none ↦ false | some _ ↦ true ] in
    if not m.etw_enabled || known
    then m
    else with_etw (λ s. record s { created = inc s.created })
        (record entered { etw_alias = put lib_id lib_id entered.etw_alias })

-- The object of the same type that already has the address: the new one is its re-report.
unfoldable pub re_reported : ℕ → EtwObj → ℕ → Model → Option (ℕ × EtwObj)
re_reported key e address m = elim (find address m.etw_by_addr) [
  | none ↦ none
  | some into ↦ if into == key then none else elim (find into m.etw_objs) [
    | none ↦ none
    | some old ↦ if is_obj_type old.type e.type then some (into, old) else none
  ]
]

pub current : ℕ → EtwObj → Model → EtwObj
current key e m = elim (find key m.etw_objs) [ none ↦ e | some x ↦ x ]

unfoldable pub merge_group : ℕ → EtwObj → EtwObj → Model → Model
merge_group into e old m =
    if not (is_loc e.group MemLoc.unknown) && not (is_loc e.group old.group)
    then apply_group into old e.group e.created_ts m
    else m

unfoldable pub merge_size : ℕ → EtwObj → EtwObj → Model → Model
merge_size into e old m = if nonzero e.size then apply_size into old e.size e.created_ts m else m

-- The record `key` becomes an alias of the object `into`.
unfoldable pub fold_into : ℕ → ℕ → EtwObj → Model → Model
fold_into key into e m =
    let dropped = driver_agg e false m in
    record dropped {
      etw_objs =
          adjust into (λ x. record x { aliases = x.aliases ++ key ∷ [] })
            (erase key dropped.etw_objs);
      etw_alias = put key into dropped.etw_alias;
    }

unfoldable pub merge : Env → ℕ → EtwObj → ℕ → EtwObj → Model → Model
merge env key e into old m =
    let counted = with_etw (λ s. record s { rundown_duplicates = inc s.rundown_duplicates }) m in
    let sized = merge_size into e old counted in
    let grouped = merge_group into e (current into old sized) sized in
    try_bind env into e.created_ts (fold_into key into e grouped)

pub object_line : ℕ → EtwObj → ℕ → Text
object_line key e address = Json.done (
    Json.str "group" (loc_name e.group) (
      Json.u "size" e.size (
        Json.hex_field "ptr" address (
          Json.str "type" (obj_type_name e.type)
            (Json.u "lib_id" key (Json.start "etw_object" e.created_ts))))))

unfoldable pub take_address : Env → ℕ → EtwObj → ℕ → Model → Model
take_address env key e address m = try_bind env key e.created_ts (
    side_line (object_line key e address) (record m {
      etw_objs = adjust key (λ x. record x { address = address }) m.etw_objs;
      etw_by_addr = put address key m.etw_by_addr;
    }))

unfoldable pub on_etw_object_address : Env → ℕ → ℕ → Model → Model
unfolding merge object_line take_address
on_etw_object_address env lib_id address m =
    if not m.etw_enabled || not (nonzero address) then m else elim (find_etw lib_id m) [
      | none ↦ m
      | some (key, e) ↦ if nonzero e.address then m else elim (re_reported key e address m) [
        | some (into, old) ↦ merge env key e into old m
        | none ↦ take_address env key e address m
      ]
    ]

-- The tracked object keeps its last location.
unfoldable pub unbind : ℕ → EtwObj → Model → Model
unbind key e m = record m {
  live =
      if nonzero e.bound_id
      then adjust e.bound_id (λ o. if o.etw_key == key then record o { etw_key = 0 } else o) m.live
      else m.live;
}

erase_each : List ℕ → List (ℕ × ℕ) → List (ℕ × ℕ)
erase_each [] m = m
erase_each (a ∷ as') m = erase_each as' (erase a m)

unfoldable pub forget : ℕ → EtwObj → Model → Model
unfolding erase_each
forget key e m = record m {
  etw_alias = erase key (erase_each e.aliases m.etw_alias);
  etw_by_addr =
      if nonzero e.address
      then elim (find e.address m.etw_by_addr) [
        | none ↦ m.etw_by_addr
        | some k ↦ if k == key then erase e.address m.etw_by_addr else m.etw_by_addr
      ]
      else m.etw_by_addr;
}

unfoldable pub note_destroyed : ℤ → ℕ → EtwObj → Model → Model
note_destroyed ts key e m =
    if nonzero e.address
    then side_line
        (Json.done (Json.u "lib_id" key (Json.start "etw_object_destroyed" (conv_ts ts m)))) m
    else m

unfoldable pub drop_etw : ℕ → EtwObj → Model → Model
drop_etw key e m =
    let counted = driver_agg e false m in record counted { etw_objs = erase key counted.etw_objs }

unfoldable pub on_etw_object_destroyed : ℤ → ℕ → Model → Model
on_etw_object_destroyed ts lib_id m = if not m.etw_enabled then m else elim (find_etw lib_id m) [
  | none ↦ m
  | some (key, e) ↦ drop_etw key e (forget key e (unbind key e (note_destroyed ts key e m)))
]

unfoldable pub on_etw_object_size : ℤ → ℕ → ℕ → Model → Model
on_etw_object_size ts lib_id size m = if not m.etw_enabled then m else elim (find_etw lib_id m) [
  | none ↦ m
  | some (key, e) ↦ apply_size key e size (conv_ts ts m) m
]

-- One change, with what the system answers while it is handled.
unfoldable pub change_group : GroupChange → ℕ → Model → Model
change_group c ts m =
    let counted = with_etw (λ s. record s { group_changes = inc s.group_changes }) m in
    elim (find_etw c.lib_id m) [
      | none ↦ counted
      | some (key, e) ↦
          if is_loc (from_group c.group) e.group
          then counted
          else apply_group key e (from_group c.group) ts counted
    ]

unfoldable pub on_group_change : Env → GroupChange → Model → Model
on_group_change env c m =
    let ts = conv_ts c.ts m in
    let sampled = sample_for env ts m in
    if is_after_exit ts sampled
    then with_etw (λ s. record s { post_exit_ignored = inc s.post_exit_ignored }) sampled
    else change_group c ts sampled

unfoldable pub group_changes_loop : List (GroupChange × Env) → Model → Model
group_changes_loop [] m = m
group_changes_loop ((c, env) ∷ cs) m = group_changes_loop cs (on_group_change env c m)

unfoldable pub on_etw_group_changes : List (GroupChange × Env) → Model → Model
on_etw_group_changes changes m = if not m.etw_enabled then m else group_changes_loop changes m

-- The lines of the paging operations.
unfoldable pub residency_line : ℤ → ℕ → ObjType → ResidencyOp → Model → Text
residency_line ts lib_id type op m =
    let ids : ℕ × ℕ = elim (find_etw lib_id m) [
      | none ↦ (0, lib_id)
      | some (key, e) ↦ (e.bound_id, key)
    ] in
    Json.done (
      Json.str "op" (residency_op_name op) (
        Json.str "type" (obj_type_name type)
          (Json.u "lib_id" (ids.1) (Json.u "id" (ids.0) (Json.start "residency" (conv_ts ts m))))))

unfoldable pub count_residency : ℤ → ℕ → ObjType → ResidencyOp → Model → Model
count_residency ts lib_id type ResidencyOp.make_resident m =
    with_etw (λ s. record s { make_resident = inc s.make_resident }) m
count_residency ts lib_id type ResidencyOp.evict m =
    with_etw (λ s. record s { evict = inc s.evict }) m
count_residency ts lib_id type ResidencyOp.page_in m =
    side_line (residency_line ts lib_id type ResidencyOp.page_in m)
      (with_etw (λ s. record s { page_ins = inc s.page_ins }) m)
count_residency ts lib_id type ResidencyOp.page_out m =
    side_line (residency_line ts lib_id type ResidencyOp.page_out m)
      (with_etw (λ s. record s { page_outs = inc s.page_outs }) m)

unfoldable pub on_etw_residency : Env → ℤ → ℕ → ObjType → ResidencyOp → Model → Model
on_etw_residency env ts lib_id type op m =
    let sampled = sample_for env (conv_ts ts m) m in
    if not m.etw_enabled
    then m
    else if is_after_exit (conv_ts ts m) sampled
    then with_etw (λ s. record s { post_exit_ignored = inc s.post_exit_ignored }) sampled
    else count_residency ts lib_id type op sampled
