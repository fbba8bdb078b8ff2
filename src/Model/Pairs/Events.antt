-- ===== src/Model/Pairs/Events.antt =====
-- The events of the pipe keep the binding a relation of pairs (src/launcher/Model.cpp, OnEvent).
use dx12track.Prelude.{
  ℕ, ◌≡◌, ◌≢◌, refl, sym, ap, ◌∙◌, none, some, find, put, erase, arith, nonzero, ltb, option_both,
  if_both, if_cases, find-put, find-erase_ne, find-erase_self, find-erase-some, put-Distinct,
  erase-Distinct,
}
use dx12track.Json.{Text}
use dx12track.Events.{
  EventHeader, EventKind, HelloPayload, CreatedPayload, RenamedPayload, DestroyedPayload,
  sizeof_hello, sizeof_created, sizeof_renamed, sizeof_destroyed, sizeof_goodbye,
}
use dx12track.Model.State.{LiveObject, ActivityLine, Model, Env}
use dx12track.Model.Core.{core, cores, cores-put, cores-erase, cores-Distinct}
use dx12track.Model.Join.{can_bind}
use dx12track.Model.Attach.{enter_maps, adopt_found, adopt, etw_on_created}
use dx12track.Model.Ingest.{
  Payload, stored_object, count_in, count_out, push_activity, on_created, on_hello, on_renamed,
  on_destroyed, mark_child_exited, dispatch, on_event,
}
use dx12track.Model.Stays.{key_at, address_at, SameKeys, SameKeys-refl, adjust-SameKeys, Stays-live}
use dx12track.Model.Frame.Attach.{enter_maps-Retains, enter_loc-Stays}
use dx12track.Model.Pairs.{HasPairs, IsPaired-same, IsPaired-forget, Stays-HasPairs, HasPairs-move}
use dx12track.Model.Pairs.Leave.{etw_on_destroyed-HasPairs}
use dx12track.Model.Pairs.Bind.{bound_at_lem, bind-HasPairs, held_pair}

enter_maps-HasPairs : (o : LiveObject) (m : Model) → HasPairs m → HasPairs (enter_maps o m)
unfolding enter_maps
enter_maps-HasPairs o m v =
    let same : SameKeys m.live (enter_maps o m).live =
      if_both (SameKeys m.live) (nonzero o.object_ptr) (adjust-SameKeys o.id _ m.live (λ x. refl))
        (SameKeys-refl m.live) in
    record {
      paired = IsPaired-same v.paired _ _ _ same.keys (λ k. refl) (λ k. refl);
      absent = same.absent v.absent;
      distinct = v.distinct;
      keyed = rw ((enter_maps-Retains o m).same_cores) v.keyed;
    }

adopt_found-HasPairs :
    (key id ts : ℕ) (m : Model)
    → address_at m.etw_objs key ≢ 0
    → HasPairs m
    → HasPairs (adopt_found key id ts m)
unfolding adopt_found can_bind
adopt_found-HasPairs key id ts m known v = option_both HasPairs (find key m.etw_objs) v (λ e found.
    option_both HasPairs (find id m.live) v (λ o held.
      if_cases HasPairs (can_bind e o)
        (λ ok.
          bind-HasPairs key id ts m
            (λ x again.
              let same : e ≡ x = ap (λ y. elim y [ none ↦ e | some z ↦ z ]) (sym found ∙ again) in
              rw⁻¹ same (ground arith, λ z. known ((bound_at_lem key e m found).1 ∙ z)))
            v)
        (λ _. v)))

adopt-HasPairs : (o : LiveObject) (ts : ℕ) (m : Model) → HasPairs m → HasPairs (adopt o ts m)
unfolding adopt
adopt-HasPairs o ts m v =
    if_both HasPairs (nonzero o.object_ptr)
      (option_both HasPairs (find o.object_ptr m.etw_by_addr) v (λ key e.
        let (a, ne) = v.paired.addressed o.object_ptr key e in
        adopt_found-HasPairs key o.id ts m (λ z. ne (sym a ∙ z)) v))
      v

etw_on_created-HasPairs :
    (o : LiveObject) (ts : ℕ) (m : Model) → HasPairs m → HasPairs (etw_on_created o ts m)
unfolding etw_on_created
etw_on_created-HasPairs o ts m v =
    adopt-HasPairs o ts _ (Stays-HasPairs (enter_loc-Stays o ts _) (enter_maps-HasPairs o m v))

count_in-HasPairs :
    (o : LiveObject) (m : Model) → o.etw_key ≡ 0 → o.id ≢ 0 → HasPairs m → HasPairs (count_in o m)
unfolding count_in
count_in-HasPairs o m free ne v = record {
  paired =
      IsPaired-forget (key_at (put o.id o m.live)) o.id v.paired
        (λ j. ground (arith, find-put o.id j o m.live));
  absent = ground (arith, find-put o.id 0 o m.live, v.absent);
  distinct = v.distinct;
  keyed = rw (cores-put o.id o m.live) (
    put-Distinct o.id (core o) (cores m.live) v.keyed.0,
    λ k c e. ground (arith, find-put o.id k (core o) (cores m.live), v.keyed.1 k c),
  );
}

push_activity-HasPairs :
    (line : ActivityLine) (m : Model) → HasPairs m → HasPairs (push_activity line m)
unfolding push_activity
push_activity-HasPairs line m v = HasPairs-move refl refl refl v

on_created-HasPairs :
    (ts : ℕ) (p : CreatedPayload) (m : Model) → p.id ≢ 0 → HasPairs m → HasPairs (on_created ts p m)
unfolding on_created stored_object
on_created-HasPairs ts p m ne v =
    let o = stored_object ts p in
    let counted = count_in-HasPairs o m refl ne v in
    push_activity-HasPairs _ _
      (if_both HasPairs m.etw_enabled (etw_on_created-HasPairs o ts (count_in o m) counted) counted)

count_out-HasPairs : (o : LiveObject) (m : Model) → HasPairs m → HasPairs (count_out o m)
unfolding count_out
count_out-HasPairs o m v =
    let gone : find o.id (erase o.id m.live) ≡ none =
      find-erase_self o.id m.live (cores-Distinct m.live v.keyed.0) in
    record {
      paired =
          IsPaired-forget (key_at (erase o.id m.live)) o.id v.paired
            (λ j. ground (arith, gone, find-erase_ne o.id j m.live));
      absent = ground (arith, gone, find-erase_ne o.id 0 m.live);
      distinct = v.distinct;
      keyed = rw (cores-erase o.id m.live) (
        erase-Distinct o.id (cores m.live) v.keyed.0,
        λ k c e. v.keyed.1 k c (find-erase-some o.id k c (cores m.live) v.keyed.0 e).1,
      );
    }

on_destroyed-HasPairs :
    (ts : ℕ) (p : DestroyedPayload) (m : Model) → HasPairs m → HasPairs (on_destroyed ts p m)
unfolding on_destroyed
on_destroyed-HasPairs ts p m v = option_both HasPairs (find p.id m.live) v (λ o e.
    count_out-HasPairs o _ (
      push_activity-HasPairs _ _ (
        if_both HasPairs m.etw_enabled (etw_on_destroyed-HasPairs o ts m (held_pair p.id o m v e) v)
          v)))

on_hello-HasPairs :
    (utf8 : ℕ → Text) (ts : ℕ) (p : HelloPayload) (m : Model)
    → HasPairs m
    → HasPairs (on_hello utf8 ts p m)
unfolding on_hello
on_hello-HasPairs utf8 ts p m v = HasPairs-move refl refl refl v

on_renamed-HasPairs : (p : RenamedPayload) (m : Model) → HasPairs m → HasPairs (on_renamed p m)
unfolding on_renamed
on_renamed-HasPairs p m v = Stays-HasPairs (Stays-live p.id _ m (λ o. (refl, refl))) v

pub mark_child_exited-HasPairs :
    (code : ℕ) (m : Model) → HasPairs m → HasPairs (mark_child_exited code m)
unfolding mark_child_exited
mark_child_exited-HasPairs code m v = HasPairs-move refl refl refl v

dispatch-HasPairs :
    (env : Env) (ts : ℕ) (kind : EventKind) (p : Payload) (bytes : ℕ) (m : Model)
    → (kind ≡ EventKind.created → p.as_created.id ≢ 0)
    → HasPairs m
    → HasPairs (dispatch env ts kind p bytes m)
unfolding dispatch
dispatch-HasPairs env ts EventKind.hello p bytes m n v =
    if_both HasPairs (ltb bytes sizeof_hello) v (on_hello-HasPairs _ ts _ m v)
dispatch-HasPairs env ts EventKind.created p bytes m n v =
    if_both HasPairs (ltb bytes sizeof_created) v (on_created-HasPairs ts p.as_created m (n refl) v)
dispatch-HasPairs env ts EventKind.renamed p bytes m n v =
    if_both HasPairs (ltb bytes sizeof_renamed) v (on_renamed-HasPairs _ m v)
dispatch-HasPairs env ts EventKind.destroyed p bytes m n v =
    if_both HasPairs (ltb bytes sizeof_destroyed) v (on_destroyed-HasPairs ts _ m v)
dispatch-HasPairs env ts EventKind.goodbye p bytes m n v =
    if_both HasPairs (ltb bytes sizeof_goodbye) v (mark_child_exited-HasPairs _ m v)
dispatch-HasPairs env ts _ p bytes m n v = v

-- Every event keeps the binding a relation of pairs, if no object is created with the id 0.
pub on_event-HasPairs :
    (env : Env) (hdr : EventHeader) (p : Payload) (bytes : ℕ) (m : Model)
    → (hdr.kind ≡ EventKind.created → p.as_created.id ≢ 0)
    → HasPairs m
    → HasPairs (on_event env hdr p bytes m)
unfolding on_event
on_event-HasPairs env hdr p bytes m n v =
    dispatch-HasPairs env hdr.ts_ns hdr.kind p bytes _ n (HasPairs-move refl refl refl v)
