-- ===== src/Model/Totals/Events.antt =====
-- Every event of the pipe keeps the totals (src/launcher/Model.cpp, OnEvent), and so does a run.
use dx12track.Prelude.{
  ℕ, ◌+◌, ◌<◌, ◌≡◌, refl, ap, ◌∙◌, false, List, none, some, find, sum_by, length, ltb, inl, inr,
  Option-cases, if_both, if_cases, u64_mod,
}
use mathlib.Core.Option
use dx12track.Events.{
  EventHeader, EventKind, CreatedPayload, DestroyedPayload, HelloPayload, RenamedPayload,
  sizeof_hello, sizeof_created, sizeof_renamed, sizeof_destroyed, sizeof_goodbye,
}
use dx12track.Json.{Text}
use dx12track.Model.State.{LiveObject, ActivityLine, Model, Env}
use dx12track.Model.Core.{
  core, cores, Retains, Retains-refl, Keeps, Keeps-edit, Counted, counted, find-cores,
}
use dx12track.Model.Frame.{edit_live-Stays}
use dx12track.Model.Frame.Attach.{etw_on_created-Retains, etw_on_destroyed-Retains}
use dx12track.Model.Ingest.{
  Payload, stored_object, count_in, count_out, push_activity, activity_line, on_created, on_hello,
  on_renamed, on_destroyed, mark_child_exited, dispatch, on_event,
}
use dx12track.Model.Totals.{
  IsTotal, HasTotals, Retains-HasTotals, count_in-HasTotals, count_out-HasTotals, size_of,
}

-- What a stored object needs: an id that is not live, and totals that still fit.
pub record IsNew (id size : ℕ) (m : Model) : Type 0 where
  pub fresh : find id m.live ≡ none
  pub room : sum_by size_of (cores m.live) + size < u64_mod
  pub few : length m.live + 1 < u64_mod

-- Only a whole `Created` event asks for it.
abbrev pub Accepts : EventHeader → Payload → ℕ → Model → Type 0
Accepts hdr p bytes m =
    hdr.kind ≡ EventKind.created
    → ltb bytes sizeof_created ≡ false
    → IsNew p.as_created.id p.as_created.size_bytes m

IsTotal-recent :
    (objs : _) (c : Counted) (recent : List ActivityLine)
    → IsTotal objs c
    → IsTotal objs (c.0, c.1, c.2, c.3, recent)
IsTotal-recent objs c recent v = record {
  bytes = v.bytes;
  counts = v.counts;
  per_type = v.per_type;
  live_bytes = v.live_bytes;
  live_count = v.live_count;
  fits = v.fits;
  few = v.few;
  distinct = v.distinct;
  keyed = v.keyed;
}

push_activity-HasTotals :
    (line : ActivityLine) (m : Model) → HasTotals m → HasTotals (push_activity line m)
unfolding push_activity
push_activity-HasTotals line m v = IsTotal-recent (cores m.live) (counted m.s) _ v

on_created-HasTotals :
    (ts : ℕ) (p : CreatedPayload) (m : Model)
    → IsNew p.id p.size_bytes m
    → HasTotals m
    → HasTotals (on_created ts p m)
unfolding on_created stored_object
on_created-HasTotals ts p m n v =
    let o = stored_object ts p in
    let counted = count_in-HasTotals o m v n.fresh n.room n.few in
    push_activity-HasTotals _ _ (
      if_both HasTotals m.etw_enabled
        (Retains-HasTotals (etw_on_created-Retains o ts (count_in o m)) counted) counted)

-- A live object keeps its core while the join lets it go.
held_core :
    (m m' : Model) (id : ℕ) (o : LiveObject)
    → Retains m m'
    → HasTotals m
    → find id m.live ≡ some o
    → find o.id (cores m'.live) ≡ some (core o)
held_core m m' id o k v e =
    let here : find id (cores m.live) ≡ some (core o) =
      find-cores id m.live ∙ ap (Option.map core) e in
    ap (find o.id) k.same_cores
    ∙ (ap (λ i. find i (cores m.live)) (v.keyed id (core o) here) ∙ here)

leave-HasTotals :
    (o : LiveObject) (line : ActivityLine) (m : Model)
    → HasTotals m
    → find o.id (cores m.live) ≡ some (core o)
    → HasTotals (count_out o (push_activity line m))
unfolding push_activity
leave-HasTotals o line m v held =
    count_out-HasTotals o _ (IsTotal-recent (cores m.live) (counted m.s) _ v) held

on_destroyed-HasTotals :
    (ts : ℕ) (p : DestroyedPayload) (m : Model) → HasTotals m → HasTotals (on_destroyed ts p m)
unfolding on_destroyed
on_destroyed-HasTotals ts p m v = elim (Option-cases (find p.id m.live)) [
  | inl e ↦ rw (e, on_destroyed) v
  | inr (o, e) ↦
      rw (e, on_destroyed)
        (if_both (λ x. HasTotals (count_out o (push_activity (activity_line false ts o) x)))
          m.etw_enabled
          (leave-HasTotals o _ _ (Retains-HasTotals (etw_on_destroyed-Retains o ts m) v)
            (held_core m _ p.id o (etw_on_destroyed-Retains o ts m) v e))
          (leave-HasTotals o _ m v (held_core m m p.id o (Retains-refl m) v e)))
]

on_hello-Retains :
    (utf8 : ℕ → Text) (ts : ℕ) (p : HelloPayload) (m : Model) → Retains m (on_hello utf8 ts p m)
unfolding on_hello
on_hello-Retains utf8 ts p m = record { same_cores = refl; same_counts = refl; same_enabled = refl }

on_renamed-Retains : (p : RenamedPayload) (m : Model) → Retains m (on_renamed p m)
unfolding on_renamed
on_renamed-Retains p m = (edit_live-Stays p.id _ m (λ x. (refl, refl))).keeps.retains

pub mark_child_exited-Keeps : (code : ℕ) (m : Model) → Keeps m (mark_child_exited code m)
unfolding mark_child_exited
mark_child_exited-Keeps code m = Keeps-edit refl refl refl refl

dispatch-HasTotals :
    (env : Env) (ts : ℕ) (kind : EventKind) (p : Payload) (bytes : ℕ) (m : Model)
    → (kind ≡ EventKind.created
        → ltb bytes sizeof_created ≡ false
        → IsNew p.as_created.id p.as_created.size_bytes m)
    → HasTotals m
    → HasTotals (dispatch env ts kind p bytes m)
unfolding dispatch
dispatch-HasTotals env ts EventKind.hello p bytes m n v =
    if_both HasTotals (ltb bytes sizeof_hello) v (Retains-HasTotals (on_hello-Retains _ ts _ m) v)
dispatch-HasTotals env ts EventKind.created p bytes m n v =
    if_cases HasTotals (ltb bytes sizeof_created) (λ _. v)
      (λ e. on_created-HasTotals ts p.as_created m (n refl e) v)
dispatch-HasTotals env ts EventKind.renamed p bytes m n v =
    if_both HasTotals (ltb bytes sizeof_renamed) v (Retains-HasTotals (on_renamed-Retains _ m) v)
dispatch-HasTotals env ts EventKind.destroyed p bytes m n v =
    if_both HasTotals (ltb bytes sizeof_destroyed) v (on_destroyed-HasTotals ts _ m v)
dispatch-HasTotals env ts EventKind.goodbye p bytes m n v =
    if_both HasTotals (ltb bytes sizeof_goodbye) v
      (Retains-HasTotals ((mark_child_exited-Keeps _ m).retains) v)
dispatch-HasTotals env ts _ p bytes m n v = v

-- Every event, with --etw or without, keeps each cell of the totals, the live bytes, the live count and
-- the counts by type equal to the sums over the live objects. A `Created` event must bring an id
-- that is not live and sizes that leave the sum below 2^64; any other event needs nothing.
pub on_event-HasTotals :
    (env : Env) (hdr : EventHeader) (p : Payload) (bytes : ℕ) (m : Model)
    → Accepts hdr p bytes m
    → HasTotals m
    → HasTotals (on_event env hdr p bytes m)
unfolding on_event
on_event-HasTotals env hdr p bytes m n v =
    dispatch-HasTotals env hdr.ts_ns hdr.kind p bytes _
      (λ k e. let w = n k e in record { fresh = w.fresh; room = w.room; few = w.few }) v
