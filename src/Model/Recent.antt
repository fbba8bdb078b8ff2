-- ===== src/Model/Recent.antt =====
-- The list of recent activity that Model::OnEvent keeps (src/launcher/Model.cpp, `s_.recent`).
use dx12track.Prelude.{ℕ, ◌≤◌, ap, find, length, ltb, if_both, option_both, length-push_bounded-le}
use dx12track.Events.{
  EventHeader, EventKind, CreatedPayload, DestroyedPayload, sizeof_hello, sizeof_created,
  sizeof_renamed, sizeof_destroyed, sizeof_goodbye,
}
use dx12track.Model.State.{ActivityLine, Model, Env}
use dx12track.Model.Core.{Retains}
use dx12track.Model.Frame.Attach.{etw_on_created-Retains, etw_on_destroyed-Retains}
use dx12track.Model.Ingest.{
  Payload, stored_object, count_in, count_out, push_activity, on_created, on_hello, on_renamed,
  on_destroyed, mark_child_exited, dispatch, on_event,
}

-- The renderer's list has its 32 lines at most.
abbrev pub IsShort : Model → Type 0
IsShort m = length m.s.recent ≤ 32

-- What keeps the totals keeps the list.
Retains-IsShort : {m m' : Model} → Retains m m' → IsShort m → IsShort m'
Retains-IsShort k s = rw (ap (λ c. length (c.4)) k.same_counts) s

push_activity-IsShort :
    (line : ActivityLine) (m : Model) → IsShort m → IsShort (push_activity line m)
unfolding push_activity
push_activity-IsShort line m s = length-push_bounded-le 32 m.s.recent line s

on_created-IsShort :
    (ts : ℕ) (p : CreatedPayload) (m : Model) → IsShort m → IsShort (on_created ts p m)
unfolding on_created count_in
on_created-IsShort ts p m s = push_activity-IsShort _ _ (
    if_both IsShort m.etw_enabled
      (Retains-IsShort
        (etw_on_created-Retains (stored_object ts p) ts (count_in (stored_object ts p) m)) s)
      s)

on_destroyed-IsShort :
    (ts : ℕ) (p : DestroyedPayload) (m : Model) → IsShort m → IsShort (on_destroyed ts p m)
unfolding on_destroyed count_out
on_destroyed-IsShort ts p m s = option_both IsShort (find p.id m.live) s (λ o _.
    push_activity-IsShort _ _
      (if_both IsShort m.etw_enabled (Retains-IsShort (etw_on_destroyed-Retains o ts m) s) s))

dispatch-IsShort :
    (env : Env) (ts : ℕ) (kind : EventKind) (p : Payload) (bytes : ℕ) (m : Model)
    → IsShort m
    → IsShort (dispatch env ts kind p bytes m)
unfolding dispatch on_hello on_renamed mark_child_exited
dispatch-IsShort env ts EventKind.hello p bytes m s = if_both IsShort (ltb bytes sizeof_hello) s s
dispatch-IsShort env ts EventKind.created p bytes m s =
    if_both IsShort (ltb bytes sizeof_created) s (on_created-IsShort ts p.as_created m s)
dispatch-IsShort env ts EventKind.renamed p bytes m s =
    if_both IsShort (ltb bytes sizeof_renamed) s s
dispatch-IsShort env ts EventKind.destroyed p bytes m s =
    if_both IsShort (ltb bytes sizeof_destroyed) s (on_destroyed-IsShort ts p.as_destroyed m s)
dispatch-IsShort env ts EventKind.goodbye p bytes m s =
    if_both IsShort (ltb bytes sizeof_goodbye) s s
dispatch-IsShort env ts _ p bytes m s = s

-- Every event, whatever its payload and with --etw or without, leaves at most 32 lines of recent activity
-- where there were at most 32 before.
pub on_event-IsShort :
    (env : Env) (hdr : EventHeader) (p : Payload) (bytes : ℕ) (m : Model)
    → IsShort m
    → IsShort (on_event env hdr p bytes m)
unfolding on_event
on_event-IsShort env hdr p bytes m s = dispatch-IsShort env hdr.ts_ns hdr.kind p bytes _ s
