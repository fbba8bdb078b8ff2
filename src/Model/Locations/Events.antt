-- ===== src/Model/Locations/Events.antt =====
-- Every event of the pipe keeps the bytes by location (src/launcher/Model.cpp, OnEvent with --etw).
use dx12track.Prelude.{
  ℕ, ◌≡◌, ◌≢◌, refl, sym, ◌∙◌, true, false, [], ◌∷◌, Map, find, erase, sum_by, arith, ltb, if_both,
  if_cases, option_both, Distinct, erase-put, sum_by-put, find-put, ==_refl, if_taken,
}
use mathlib.Core.Path.{subst}
use dx12track.Events.{
  EventHeader, EventKind, HelloPayload, RenamedPayload, ObjectType, is_object_type, CreatedPayload,
  DestroyedPayload, sizeof_hello, sizeof_created, sizeof_renamed, sizeof_destroyed, sizeof_goodbye,
}
use dx12track.Json.{Text}
use dx12track.Model.State.{LiveObject, ActivityLine, Model, Env}
use dx12track.Model.Core.{cores, cores-Distinct}
use dx12track.Model.Attach.{
  enter_maps, etw_on_created, leave_children, etw_on_destroyed, children_of, fall_back_each,
}
use dx12track.Model.Frame.Attach.{settle-Keeps, leave_partner_address-Keeps, fall_back_each-Stays}
use dx12track.Model.Ingest.{
  Payload, stored_object, count_in, count_out, push_activity, activity_line, on_created, on_hello,
  on_renamed, on_destroyed, mark_child_exited, dispatch, on_event,
}
use dx12track.Model.Totals.{HasTotals, size_of}
use dx12track.Model.Totals.Events.{IsNew, Accepts}
use dx12track.Model.Locations.{IsLocated, HasLocs, bytes_of, edit_live-HasLocs}
use dx12track.Model.Locations.Children.{
  NoSelf, NoSelf-erase, enter_maps-NoSelf, leave_parent-NoSelf,
}
use dx12track.Model.Locations.Enter.{Enters, etw_on_created-HasLocs}
use dx12track.Model.Locations.Leave.{without, etw_on_destroyed-HasLocs}
use dx12track.Model.Locations.Moves.{held_at}

-- A table that fits, and sets of children without their owner.
pub record IsTracked (m : Model) : Type 0 where
  pub locs : HasLocs m
  pub no_self : NoSelf m.children

etw_on_created-NoSelf :
    (o : LiveObject) (ts : ℕ) (m : Model)
    → o.id ≢ o.parent_heap_id
    → NoSelf m.children
    → NoSelf (etw_on_created o ts m).children
unfolding etw_on_created
etw_on_created-NoSelf o ts m ne n =
    rw ((settle-Keeps o ts (enter_maps o m)).same_children) (enter_maps-NoSelf o m ne n)

leave_children-NoSelf :
    (o : LiveObject) (ts : ℕ) (m : Model)
    → NoSelf m.children
    → NoSelf (leave_children o ts m).children
unfolding leave_children
leave_children-NoSelf o ts m n =
    if_both (λ (x : Model). NoSelf x.children) (is_object_type o.type ObjectType.heap)
      {x = fall_back_each (children_of o.id m) ts (record m { children = erase o.id m.children })}
      (rw ((fall_back_each-Stays (children_of o.id m) ts _).keeps.same_children)
        (NoSelf-erase o.id m.children n))
      n

etw_on_destroyed-NoSelf :
    (o : LiveObject) (ts : ℕ) (m : Model)
    → NoSelf m.children
    → NoSelf (etw_on_destroyed o ts m).children
unfolding etw_on_destroyed
etw_on_destroyed-NoSelf o ts m n =
    leave_children-NoSelf o ts _
      (leave_parent-NoSelf o _ (rw ((leave_partner_address-Keeps o ts m).same_children) n))

sum_by-cores : (live : Map LiveObject) → sum_by size_of (cores live) ≡ sum_by bytes_of live
unfolding sum_by
sum_by-cores [] = refl
sum_by-cores ((k, o) ∷ live) = omega (arith, sum_by-cores live)

count_in-Enters :
    (o : LiveObject) (m : Model) → IsNew o.id o.size_bytes m → HasLocs m → Enters o (count_in o m)
unfolding count_in
count_in-Enters o m n v = record {
  rest = subst (λ live. IsLocated live m.s.etw.loc_bytes) (sym (erase-put o.id o m.live n.fresh)) v;
  stored = o;
  found = find-put o.id o.id o m.live ∙ rw (==_refl o.id) refl;
  same_alloc = refl;
  same_heap = refl;
  same_size = refl;
  fits = omega (arith, sum_by-put bytes_of o.id o m.live n.fresh, sum_by-cores m.live, n.room);
  keyed = λ k x e. ground (arith, find-put o.id k o m.live, v.keyed k x);
}

count_in-children : (o : LiveObject) (m : Model) → (count_in o m).children ≡ m.children
unfolding count_in
count_in-children o m = refl

push_activity-IsTracked :
    (line : ActivityLine) (m : Model) → IsTracked m → IsTracked (push_activity line m)
unfolding push_activity
push_activity-IsTracked line m v = record { locs = v.locs; no_self = v.no_self }

on_created-IsTracked :
    (ts : ℕ) (p : CreatedPayload) (m : Model)
    → m.etw_enabled ≡ true
    → IsNew p.id p.size_bytes m
    → p.id ≢ p.parent_heap_id
    → IsTracked m
    → IsTracked (on_created ts p m)
unfolding on_created stored_object
on_created-IsTracked ts p m on n ne v =
    let o = stored_object ts p in
    let c = count_in o m in
    push_activity-IsTracked _ _ (
      if_taken IsTracked m.etw_enabled _ on (record {
        locs = etw_on_created-HasLocs o ts c (count_in-Enters o m n v.locs);
        no_self = etw_on_created-NoSelf o ts c ne (rw (count_in-children o m) v.no_self);
      }))

count_out-IsTracked :
    (o : LiveObject) (line : ActivityLine) (m : Model)
    → HasLocs (without o.id m)
    → NoSelf m.children
    → IsTracked (count_out o (push_activity line m))
unfolding count_out push_activity
count_out-IsTracked o line m v n = record { locs = v; no_self = n }

on_destroyed-IsTracked :
    (ts : ℕ) (p : DestroyedPayload) (m : Model)
    → m.etw_enabled ≡ true
    → Distinct m.live
    → IsTracked m
    → IsTracked (on_destroyed ts p m)
unfolding on_destroyed
on_destroyed-IsTracked ts p m on d v = option_both IsTracked (find p.id m.live) v (λ o e.
    if_taken (λ x. IsTracked (count_out o (push_activity (activity_line false ts o) x)))
      m.etw_enabled _ on
      (count_out-IsTracked o (activity_line false ts o) (etw_on_destroyed o ts m)
        (etw_on_destroyed-HasLocs o ts m v.locs v.no_self d (held_at p.id o m v.locs e))
        (etw_on_destroyed-NoSelf o ts m v.no_self)))

on_hello-IsTracked :
    (utf8 : ℕ → Text) (ts : ℕ) (p : HelloPayload) (m : Model)
    → IsTracked m
    → IsTracked (on_hello utf8 ts p m)
unfolding on_hello
on_hello-IsTracked utf8 ts p m v = record { locs = v.locs; no_self = v.no_self }

on_renamed-IsTracked : (p : RenamedPayload) (m : Model) → IsTracked m → IsTracked (on_renamed p m)
unfolding on_renamed
on_renamed-IsTracked p m v = record {
  locs = edit_live-HasLocs p.id _ m (λ x. (refl, refl, refl, refl, refl)) v.locs;
  no_self = v.no_self;
}

mark_child_exited-IsTracked :
    (code : ℕ) (m : Model) → IsTracked m → IsTracked (mark_child_exited code m)
unfolding mark_child_exited
mark_child_exited-IsTracked code m v = record { locs = v.locs; no_self = v.no_self }

dispatch-IsTracked :
    (env : Env) (ts : ℕ) (kind : EventKind) (p : Payload) (bytes : ℕ) (m : Model)
    → m.etw_enabled ≡ true
    → (kind ≡ EventKind.created
        → ltb bytes sizeof_created ≡ false
        → IsNew p.as_created.id p.as_created.size_bytes m)
    → (kind ≡ EventKind.created → p.as_created.id ≢ p.as_created.parent_heap_id)
    → Distinct m.live
    → IsTracked m
    → IsTracked (dispatch env ts kind p bytes m)
unfolding dispatch
dispatch-IsTracked env ts EventKind.hello p bytes m on n ne d v =
    if_both IsTracked (ltb bytes sizeof_hello) v (on_hello-IsTracked _ ts _ m v)
dispatch-IsTracked env ts EventKind.created p bytes m on n ne d v =
    if_cases IsTracked (ltb bytes sizeof_created) (λ _. v)
      (λ e. on_created-IsTracked ts p.as_created m on (n refl e) (ne refl) v)
dispatch-IsTracked env ts EventKind.renamed p bytes m on n ne d v =
    if_both IsTracked (ltb bytes sizeof_renamed) v (on_renamed-IsTracked _ m v)
dispatch-IsTracked env ts EventKind.destroyed p bytes m on n ne d v =
    if_both IsTracked (ltb bytes sizeof_destroyed) v (on_destroyed-IsTracked ts _ m on d v)
dispatch-IsTracked env ts EventKind.goodbye p bytes m on n ne d v =
    if_both IsTracked (ltb bytes sizeof_goodbye) v (mark_child_exited-IsTracked _ m v)
dispatch-IsTracked env ts _ p bytes m on n ne d v = v

-- With --etw on, every event keeps each cell of `loc_bytes` equal to the sum over the live objects
-- of that heap type and effective location (and no object among its own children), where the
-- totals are right. A `Created` event must bring an id that is not live, is not its own heap's, and
-- leaves the sum of sizes below 2^64.
pub on_event-IsTracked :
    (env : Env) (hdr : EventHeader) (p : Payload) (bytes : ℕ) (m : Model)
    → m.etw_enabled ≡ true
    → Accepts hdr p bytes m
    → (hdr.kind ≡ EventKind.created → p.as_created.id ≢ p.as_created.parent_heap_id)
    → HasTotals m
    → IsTracked m
    → IsTracked (on_event env hdr p bytes m)
unfolding on_event
on_event-IsTracked env hdr p bytes m on n ne t v =
    dispatch-IsTracked env hdr.ts_ns hdr.kind p bytes
      (record m { s = record (m.s) { latest_ns = hdr.ts_ns } }) on
      (λ k e. let w = n k e in record { fresh = w.fresh; room = w.room; few = w.few }) ne
      (cores-Distinct m.live t.distinct) (record { locs = v.locs; no_self = v.no_self })
