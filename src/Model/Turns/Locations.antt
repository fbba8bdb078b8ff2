-- ===== src/Model/Turns/Locations.antt =====
-- The bytes by location over the calls of all threads (src/launcher/Model.h): what the join needs is
-- that it stays on.
use dx12track.Prelude.{
  ℕ, ◌≡◌, ◌≢◌, refl, ◌∙◌, Bool, true, false, List, [], ◌∷◌, find, ltb, if_both, option_both,
}
use dx12track.Json.{Text}
use dx12track.Events.{
  EventHeader, EventKind, HelloPayload, CreatedPayload, RenamedPayload, DestroyedPayload,
  sizeof_hello, sizeof_created, sizeof_renamed, sizeof_destroyed, sizeof_goodbye,
}
use dx12track.Model.State.{LiveObject, ActivityLine, Model, Env}
use dx12track.Model.Ingest.{
  Payload, stored_object, count_in, count_out, push_activity, activity_line, on_created, on_hello,
  on_renamed, on_destroyed, dispatch, on_event,
}
use dx12track.Model.Session.{set_child_process, enable_etw, disable_etw, set_etw_running}
use dx12track.Model.Tick.{Double}
use dx12track.Model.Frame.Attach.{etw_on_created-Retains, etw_on_destroyed-Retains}
use dx12track.Model.Turns.{Other, Turn, call, turn, turns}
use dx12track.Model.Turns.Totals.{Admits, call-Keeps, turn-HasTotals}
use dx12track.Model.Totals.{HasTotals}
use dx12track.Model.Totals.Events.{mark_child_exited-Keeps}
use dx12track.Model.Locations.{HasLocs}
use dx12track.Model.Locations.Events.{IsTracked, on_event-IsTracked}
use dx12track.Model.Locations.Calls.{
  poll_child-HasLocs, on_etw_object_created-HasLocs, on_etw_object_address-HasLocs,
  on_etw_object_destroyed-HasLocs, on_etw_object_size-HasLocs, on_etw_group_changes-HasLocs,
  on_etw_residency-HasLocs, on_etw_counter-HasLocs, on_etw_diagnostic-HasLocs,
}
use dx12track.Model.Locations.Main.{
  etw_tick-HasLocs, finish_etw-HasLocs, set_child_exit_qpc-HasLocs,
}
use dx12track.Model.Ingest.{mark_child_exited}

-- Is the join on as in `m`?
abbrev SameJoin : Model → Model → Type 0
SameJoin m m' = m'.etw_enabled ≡ m.etw_enabled

count_in-SameJoin : (o : LiveObject) (m : Model) → SameJoin m (count_in o m)
unfolding count_in
count_in-SameJoin o m = refl

on_created-SameJoin : (ts : ℕ) (p : CreatedPayload) (m : Model) → SameJoin m (on_created ts p m)
unfolding on_created push_activity
on_created-SameJoin ts p m =
    let o = stored_object ts p in
    if_both (SameJoin m) m.etw_enabled
      ((etw_on_created-Retains o ts (count_in o m)).same_enabled ∙ count_in-SameJoin o m)
      (count_in-SameJoin o m)

count_out-SameJoin :
    (o : LiveObject) (line : ActivityLine) (m : Model)
    → SameJoin m (count_out o (push_activity line m))
unfolding count_out push_activity
count_out-SameJoin o line m = refl

on_destroyed-SameJoin :
    (ts : ℕ) (p : DestroyedPayload) (m : Model) → SameJoin m (on_destroyed ts p m)
unfolding on_destroyed
on_destroyed-SameJoin ts p m = option_both (SameJoin m) (find p.id m.live) refl (λ o _.
    if_both (λ x. SameJoin m (count_out o (push_activity (activity_line false ts o) x)))
      m.etw_enabled (count_out-SameJoin o _ _ ∙ (etw_on_destroyed-Retains o ts m).same_enabled)
      (count_out-SameJoin o _ m))

on_hello-SameJoin :
    (utf8 : ℕ → Text) (ts : ℕ) (p : HelloPayload) (m : Model) → SameJoin m (on_hello utf8 ts p m)
unfolding on_hello
on_hello-SameJoin utf8 ts p m = refl

on_renamed-SameJoin : (p : RenamedPayload) (m : Model) → SameJoin m (on_renamed p m)
unfolding on_renamed
on_renamed-SameJoin p m = refl

dispatch-SameJoin :
    (env : Env) (ts : ℕ) (kind : EventKind) (p : Payload) (bytes : ℕ) (m : Model)
    → SameJoin m (dispatch env ts kind p bytes m)
unfolding dispatch
dispatch-SameJoin env ts EventKind.hello p bytes m =
    if_both (SameJoin m) (ltb bytes sizeof_hello) refl (on_hello-SameJoin _ ts _ m)
dispatch-SameJoin env ts EventKind.created p bytes m =
    if_both (SameJoin m) (ltb bytes sizeof_created) refl (on_created-SameJoin ts _ m)
dispatch-SameJoin env ts EventKind.renamed p bytes m =
    if_both (SameJoin m) (ltb bytes sizeof_renamed) refl (on_renamed-SameJoin _ m)
dispatch-SameJoin env ts EventKind.destroyed p bytes m =
    if_both (SameJoin m) (ltb bytes sizeof_destroyed) refl (on_destroyed-SameJoin ts _ m)
dispatch-SameJoin env ts EventKind.goodbye p bytes m =
    if_both (SameJoin m) (ltb bytes sizeof_goodbye) refl
      ((mark_child_exited-Keeps _ m).retains.same_enabled)
dispatch-SameJoin env ts _ p bytes m = refl

on_event-SameJoin :
    (env : Env) (hdr : EventHeader) (p : Payload) (bytes : ℕ) (m : Model)
    → SameJoin m (on_event env hdr p bytes m)
unfolding on_event
on_event-SameJoin env hdr p bytes m = dispatch-SameJoin env hdr.ts_ns hdr.kind p bytes _

module _ (d : Double) where
  call-HasLocs : (c : Other d) (m : Model) → HasLocs m → HasLocs (call d c m)
  unfolding call set_child_process enable_etw disable_etw set_etw_running mark_child_exited
  call-HasLocs (Other.object_created ts lib_id type size group) m v =
      on_etw_object_created-HasLocs ts lib_id type size group m v
  call-HasLocs (Other.object_address env lib_id address) m v =
      on_etw_object_address-HasLocs env lib_id address m v
  call-HasLocs (Other.object_destroyed ts lib_id) m v =
      on_etw_object_destroyed-HasLocs ts lib_id m v
  call-HasLocs (Other.object_size ts lib_id size) m v =
      on_etw_object_size-HasLocs ts lib_id size m v
  call-HasLocs (Other.group_changes cs) m v = on_etw_group_changes-HasLocs cs m v
  call-HasLocs (Other.residency env ts lib_id type op) m v =
      on_etw_residency-HasLocs env ts lib_id type op m v
  call-HasLocs (Other.counter env ts id kind value) m v =
      on_etw_counter-HasLocs d env ts id kind value m v
  call-HasLocs (Other.diagnostic env error code message) m v =
      on_etw_diagnostic-HasLocs env error code message m v
  call-HasLocs (Other.tick env stats) m v = etw_tick-HasLocs env stats m v
  call-HasLocs (Other.finish env stats) m v = finish_etw-HasLocs env stats m v
  call-HasLocs (Other.poll env) m v = poll_child-HasLocs env m v
  call-HasLocs (Other.exit_qpc qpc) m v = set_child_exit_qpc-HasLocs qpc m v
  call-HasLocs (Other.exited code) m v = v
  call-HasLocs (Other.process handle) m v = v
  call-HasLocs (Other.running r) m v = v
  call-HasLocs (Other.enable opened name path interval) m v = v
  call-HasLocs (Other.disable reason) m v = v

  call-NoSelf : (c : Other d) (m : Model) → (call d c m).children ≡ m.children
  unfolding call enable_etw disable_etw
  call-NoSelf (Other.enable opened name path interval) m = refl
  call-NoSelf (Other.disable reason) m = refl
  call-NoSelf c m = (call-Keeps d c m refl).same_children

  call-IsTracked : (c : Other d) (m : Model) → IsTracked m → IsTracked (call d c m)
  call-IsTracked c m v = record {
    locs = call-HasLocs c m (v.locs);
    no_self = rw (call-NoSelf c m) (v.no_self);
  }

  -- A call after which the join is on, where it was on before: any but DisableEtw.
  abbrev pub stays_on : Turn d → Bool
  stays_on (Turn.other (Other.disable reason)) = false
  stays_on _ = true

  call-stays_on :
      (c : Other d) (m : Model)
      → stays_on (Turn.other c) ≡ true
      → m.etw_enabled ≡ true
      → (call d c m).etw_enabled ≡ true
  unfolding call enable_etw
  call-stays_on (Other.enable opened name path interval) m s on = refl
  call-stays_on (Other.disable reason) m s on = cc
  call-stays_on c m s on = (call-Keeps d c m refl).retains.same_enabled ∙ on

  turn-stays_on :
      (c : Turn d) (m : Model)
      → stays_on c ≡ true
      → m.etw_enabled ≡ true
      → (turn d c m).etw_enabled ≡ true
  unfolding turn
  turn-stays_on (Turn.event env hdr p bytes) m s on = on_event-SameJoin env hdr p bytes m ∙ on
  turn-stays_on (Turn.other c) m s on = call-stays_on c m s on

  -- What a call needs of the model that it meets. No created object is its own heap.
  abbrev pub Traces : Turn d → Model → Type 0
  Traces (Turn.event env hdr p bytes) m =
      Admits d (Turn.event env hdr p bytes) m
      × (hdr.kind ≡ EventKind.created → p.as_created.id ≢ p.as_created.parent_heap_id)
  Traces (Turn.other c) m = Unit

  abbrev pub TracesAll : List (Turn d) → Model → Type 0
  TracesAll [] m = Unit
  TracesAll (c ∷ cs) m = (stays_on c ≡ true) × Traces c m × TracesAll cs (turn d c m)

  Traces-Admits : (c : Turn d) (m : Model) → Traces c m → Admits d c m
  Traces-Admits (Turn.event env hdr p bytes) m a = a.0
  Traces-Admits (Turn.other c) m a = tt

  turn-IsTracked :
      (c : Turn d) (m : Model)
      → m.etw_enabled ≡ true
      → Traces c m
      → HasTotals m
      → IsTracked m
      → IsTracked (turn d c m)
  unfolding turn
  turn-IsTracked (Turn.event env hdr p bytes) m on a t v =
      on_event-IsTracked env hdr p bytes m on (a.0) (a.1) t v
  turn-IsTracked (Turn.other c) m on a t v = call-IsTracked c m v

  -- With --etw on and never turned off, however the calls of the pipe's reader, the ETW consumer and the
  -- main loop follow each other, they keep the totals equal to the sums over the live objects, and each
  -- cell of the bytes by location equal to the sum over the live objects of that heap type and effective
  -- location, if each whole `Created` event brings an id that is not live then and sizes that leave the
  -- sum below 2^64, and no `Created` event gives an object as its own heap.
  pub turns-IsTracked :
      (cs : List (Turn d)) (m : Model)
      → m.etw_enabled ≡ true
      → TracesAll cs m
      → HasTotals m
      → IsTracked m
      → HasTotals (turns d cs m) × IsTracked (turns d cs m)
  unfolding turns
  turns-IsTracked [] m on a t v = (t, v)
  turns-IsTracked (c ∷ cs) m on a t v =
      turns-IsTracked cs (turn d c m) (turn-stays_on c m (a.0) on) (a.2)
        (turn-HasTotals d c m (Traces-Admits c m (a.1)) t) (turn-IsTracked c m on (a.1) t v)
