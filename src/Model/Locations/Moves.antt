-- ===== src/Model/Locations/Moves.antt =====
-- The bytes by location stay right through RecomputeLoc, Bind, TryBindEtw, ApplyGroup and ApplySize
-- of src/launcher/Model.cpp.
use dx12track.Prelude.{
  ℕ, ◌≡◌, refl, Bool, true, false, not, ◌&&◌, ◌||◌, List, [], ◌∷◌, some, find, if_both, option_both,
  nonzero, ◌==◌, leb, if◌then◌else◌, ap, ◌∙◌,
}
use dx12track.Json.{Text}
use dx12track.Events.{ObjectType, is_object_type}
use dx12track.Etw.{obj_type_index}
use dx12track.Model.State.{
  MemLoc, is_loc, LiveObject, EtwSnapshot, EtwObj, DeadObj, Model, Env, is_driver_type, bindable,
  obj_types,
}
use dx12track.Model.Join.{
  edit_live, side_line, eff_loc_of, relocate, report_loc, recompute_at, recompute_loc,
  recompute_each, recompute_children, release_partner, link, note_driver_size, recompute_if_heap,
  bind_pair, bind, driver_agg,
}
use dx12track.Model.Attach.{
  match_late, await_object, try_bind_obj, try_bind, live_match, find_dead, dead_at, group_of_live,
  apply_group, size_of_live, apply_size,
}
use dx12track.Model.Locations.{HasLocs, edit_live-HasLocs, relocate-HasLocs}

pub side_line-HasLocs : (line : Text) (m : Model) → HasLocs m → HasLocs (side_line line m)
unfolding side_line
side_line-HasLocs line m v = v

report_loc-HasLocs :
    (o : LiveObject) (l : MemLoc) (via : Bool) (ts : ℕ) (m : Model)
    → HasLocs m
    → HasLocs (report_loc o l via ts m)
unfolding report_loc
report_loc-HasLocs o l via ts m v =
    side_line-HasLocs _ _ (edit_live-HasLocs o.id _ m (λ x. (refl, refl, refl, refl, refl)) v)

recompute_at-HasLocs :
    (o : LiveObject) (e : MemLoc × Bool) (ts : ℕ) (force : Bool) (m : Model)
    → find o.id m.live ≡ some o
    → HasLocs m
    → HasLocs (recompute_at o e ts force m)
unfolding recompute_at
recompute_at-HasLocs o (l, via) ts force m held v =
    let moved : HasLocs (if not (is_loc l o.eff_loc) then relocate o l m else m) =
      if_both HasLocs (not (is_loc l o.eff_loc)) (relocate-HasLocs o l m v held) v in
    if_both HasLocs
      (not (is_loc l o.eff_loc) || force || (not o.loc_reported && not (is_loc l MemLoc.unknown)))
      (report_loc-HasLocs o l via ts _ moved) moved

-- An object stands at its own id.
pub held_at :
    (id : ℕ) (o : LiveObject) (m : Model)
    → HasLocs m
    → find id m.live ≡ some o
    → find o.id m.live ≡ some o
held_at id o m v e = ap (λ k. find k m.live) (v.keyed id o e) ∙ e

pub recompute_loc-HasLocs :
    (id ts : ℕ) (force : Bool) (m : Model) → HasLocs m → HasLocs (recompute_loc id ts force m)
unfolding recompute_loc
recompute_loc-HasLocs id ts force m v =
    option_both HasLocs (find id m.live) v
      (λ o e. recompute_at-HasLocs o (eff_loc_of o m) ts force m (held_at id o m v e) v)

recompute_each-HasLocs :
    (ids : List ℕ) (ts : ℕ) (m : Model) → HasLocs m → HasLocs (recompute_each ids ts m)
unfolding recompute_each
recompute_each-HasLocs [] ts m v = v
recompute_each-HasLocs (id ∷ ids) ts m v =
    recompute_each-HasLocs ids ts _ (recompute_loc-HasLocs id ts false m v)

pub recompute_if_heap-HasLocs :
    (o : LiveObject) (ts : ℕ) (m : Model) → HasLocs m → HasLocs (recompute_if_heap o ts m)
unfolding recompute_if_heap recompute_children
recompute_if_heap-HasLocs o ts m v =
    if_both HasLocs (is_object_type o.type ObjectType.heap)
      (option_both HasLocs (find o.id m.children) v (λ ids e. recompute_each-HasLocs ids ts m v)) v

link-HasLocs :
    (key : ℕ) (e : EtwObj) (o : LiveObject) (ts : ℕ) (m : Model)
    → HasLocs m
    → HasLocs (link key e o ts m)
unfolding link side_line
link-HasLocs key e o ts m v =
    edit_live-HasLocs o.id (λ x. record x { etw_key = key; own_loc = e.group }) m
      (λ x. (refl, refl, refl, refl, refl)) v

note_driver_size-HasLocs :
    (e : EtwObj) (o : LiveObject) (ts : ℕ) (m : Model)
    → HasLocs m
    → HasLocs (note_driver_size e o ts m)
unfolding note_driver_size
note_driver_size-HasLocs e o ts m v =
    let noted : HasLocs (edit_live o.id (λ x. record x { driver_size = e.size }) m) =
      edit_live-HasLocs o.id _ m (λ x. (refl, refl, refl, refl, refl)) v in
    if_both HasLocs (is_driver_type e.type)
      (if_both HasLocs (nonzero e.size) (side_line-HasLocs _ _ noted) noted) v

release_partner-HasLocs :
    (key : ℕ) (o : LiveObject) (m : Model) → HasLocs m → HasLocs (release_partner key o m)
unfolding release_partner
release_partner-HasLocs key o m v = v

bind_pair-HasLocs :
    (key : ℕ) (e : EtwObj) (o : LiveObject) (ts : ℕ) (m : Model)
    → HasLocs m
    → HasLocs (bind_pair key e o ts m)
unfolding bind_pair
bind_pair-HasLocs key e o ts m v = note_driver_size-HasLocs e o ts _ (
    recompute_if_heap-HasLocs o ts _ (
      recompute_loc-HasLocs o.id ts _ _
        (link-HasLocs key e o ts _ (release_partner-HasLocs key o m v))))

pub bind-HasLocs : (key id ts : ℕ) (m : Model) → HasLocs m → HasLocs (bind key id ts m)
unfolding bind
bind-HasLocs key id ts m v =
    option_both HasLocs (find key m.etw_objs) v
      (λ e _. option_both HasLocs (find id m.live) v (λ o _. bind_pair-HasLocs key e o ts m v))

match_late-HasLocs :
    (key : ℕ) (e : EtwObj) (x : DeadObj) (ts : ℕ) (m : Model)
    → HasLocs m
    → HasLocs (match_late key e x ts m)
unfolding match_late
match_late-HasLocs key e x ts m v = side_line-HasLocs _ _ v

await_object-HasLocs :
    (env : Env) (key : ℕ) (e : EtwObj) (m : Model) → HasLocs m → HasLocs (await_object env key e m)
unfolding await_object
await_object-HasLocs env key e m v =
    if_both HasLocs (not (nonzero e.pending_since_ms) && not e.expired) v v

try_bind_obj-HasLocs :
    (env : Env) (key : ℕ) (e : EtwObj) (ts : ℕ) (m : Model)
    → HasLocs m
    → HasLocs (try_bind_obj env key e ts m)
unfolding try_bind_obj
try_bind_obj-HasLocs env key e ts m v =
    if_both HasLocs
      (nonzero e.bound_id
        || nonzero e.orphan_ts
        || not (nonzero e.address)
        || not (bindable e.type))
      v
      (option_both HasLocs (live_match e m)
        (option_both HasLocs (find_dead e (dead_at e.address m))
          (await_object-HasLocs env key e m v) (λ x _. match_late-HasLocs key e x ts m v))
        (λ o _. bind-HasLocs key o.id ts m v))

pub try_bind-HasLocs :
    (env : Env) (key ts : ℕ) (m : Model) → HasLocs m → HasLocs (try_bind env key ts m)
unfolding try_bind
try_bind-HasLocs env key ts m v =
    option_both HasLocs (find key m.etw_objs) v (λ e _. try_bind_obj-HasLocs env key e ts m v)

driver_agg-loc_bytes :
    (e : EtwObj) (positive : Bool) (m : Model)
    → (driver_agg e positive m).s.etw.loc_bytes ≡ m.s.etw.loc_bytes
unfolding driver_agg
driver_agg-loc_bytes e positive m =
    if_both (λ (x : EtwSnapshot). x.loc_bytes ≡ m.s.etw.loc_bytes)
      (leb obj_types (obj_type_index e.type)) refl
      (if_both (λ (x : EtwSnapshot). x.loc_bytes ≡ m.s.etw.loc_bytes) positive refl refl)

pub driver_agg-HasLocs :
    (e : EtwObj) (positive : Bool) (m : Model) → HasLocs m → HasLocs (driver_agg e positive m)
unfolding driver_agg
driver_agg-HasLocs e positive m v = rw (driver_agg-loc_bytes e positive m) v

group_of_live-HasLocs :
    (e : EtwObj) (g : MemLoc) (ts : ℕ) (m : Model) → HasLocs m → HasLocs (group_of_live e g ts m)
unfolding group_of_live
group_of_live-HasLocs e g ts m v = option_both HasLocs (find e.bound_id m.live) v (λ o _.
    recompute_if_heap-HasLocs o ts _ (
      recompute_loc-HasLocs e.bound_id ts false _
        (edit_live-HasLocs e.bound_id _ m (λ x. (refl, refl, refl, refl, refl)) v)))

pub apply_group-HasLocs :
    (key : ℕ) (e : EtwObj) (g : MemLoc) (ts : ℕ) (m : Model)
    → HasLocs m
    → HasLocs (apply_group key e g ts m)
unfolding apply_group
apply_group-HasLocs key e g ts m v =
    if_both HasLocs (nonzero e.bound_id) (group_of_live-HasLocs e g ts _ v) v

size_of_live-HasLocs :
    (e : EtwObj) (size ts : ℕ) (m : Model) → HasLocs m → HasLocs (size_of_live e size ts m)
unfolding size_of_live
size_of_live-HasLocs e size ts m v = option_both HasLocs (find e.bound_id m.live) v (λ o _.
    if_both HasLocs (o.driver_size == size) v (
      side_line-HasLocs _ _
        (edit_live-HasLocs e.bound_id _ m (λ x. (refl, refl, refl, refl, refl)) v)))

pub apply_size-HasLocs :
    (key : ℕ) (e : EtwObj) (size ts : ℕ) (m : Model)
    → HasLocs m
    → HasLocs (apply_size key e size ts m)
unfolding apply_size
apply_size-HasLocs key e size ts m v =
    let sized =
      driver_agg-HasLocs (record e { size = size }) true _ (driver_agg-HasLocs e false m v) in
    if_both HasLocs (not (nonzero size) || size == e.size) v (
      if_both HasLocs (not (nonzero e.bound_id) || not (is_driver_type e.type)) sized
        (size_of_live-HasLocs e size ts _ sized))
