-- ===== src/Model/Locations/Main.antt =====
-- The calls of the main loop (src/launcher/Model.cpp) leave the bytes by location right.
use dx12track.Prelude.{
  ℕ, ◌-◌, ◌≡◌, refl, ◌∙◌, true, Map, List, [], ◌∷◌, not, ◌&&◌, ◌||◌, ◌==◌, find, ltb, sub64,
  nonzero, if_both, option_both,
}
use dx12track.Etw.{Stats}
use dx12track.Model.State.{
  EtwObj, EtwSnapshot, Model, Env, etw_pending_timeout_ms, destroy_history_ns, inc,
}
use dx12track.Model.Join.{with_etw, edit_etw}
use dx12track.Model.Session.{
  now_ts, count_etw_obj, count_each, refresh_join_stats, expire_pending, forget_dead,
  set_child_exit_qpc,
}
use dx12track.Model.Tick.{every_second, has_counters, etw_tick, close_side, finish_etw}
use dx12track.Model.Locations.{HasLocs}
use dx12track.Model.Locations.Moves.{side_line-HasLocs}

count_etw_obj-loc_bytes :
    (o : EtwObj) (e : EtwSnapshot) → (count_etw_obj o e).loc_bytes ≡ e.loc_bytes
unfolding count_etw_obj
count_etw_obj-loc_bytes o e =
    if_both (λ (x : EtwSnapshot). x.loc_bytes ≡ e.loc_bytes) (nonzero o.bound_id) refl
      (if_both (λ (x : EtwSnapshot). x.loc_bytes ≡ e.loc_bytes) (nonzero o.orphan_ts) refl refl)

count_each-loc_bytes :
    (objs : Map EtwObj) (e : EtwSnapshot) → (count_each objs e).loc_bytes ≡ e.loc_bytes
unfolding count_each
count_each-loc_bytes [] e = refl
count_each-loc_bytes ((key, o) ∷ objs) e =
    count_each-loc_bytes objs (count_etw_obj o e) ∙ count_etw_obj-loc_bytes o e

refresh_join_stats-HasLocs : (m : Model) → HasLocs m → HasLocs (refresh_join_stats m)
unfolding refresh_join_stats
refresh_join_stats-HasLocs m v = rw (count_each-loc_bytes m.etw_objs _) v

expire_pending-HasLocs :
    (now : ℕ) (q : List ℕ) (m : Model) → HasLocs m → HasLocs (expire_pending now q m)
unfolding expire_pending
expire_pending-HasLocs now [] m v = v
expire_pending-HasLocs now (key ∷ q) m v =
    let skipped = expire_pending-HasLocs now q m v in
    let expired =
      expire_pending-HasLocs now q
        (with_etw (λ e. record e { pending_expired = inc e.pending_expired })
          (edit_etw key (λ o. record o { pending_since_ms = 0; expired = true }) m))
        v in
    option_both HasLocs (find key m.etw_objs) skipped (λ o _.
      if_both HasLocs (nonzero o.bound_id || not (nonzero o.pending_since_ms)) skipped
        (if_both HasLocs (ltb (sub64 now o.pending_since_ms) etw_pending_timeout_ms) v expired))

forget_dead-HasLocs :
    (now : ℕ) (hist : List (ℕ × ℕ)) (m : Model) → HasLocs m → HasLocs (forget_dead now hist m)
unfolding forget_dead
forget_dead-HasLocs now [] m v = v
forget_dead-HasLocs now ((ts, ptr) ∷ hist) m v =
    if_both HasLocs (ltb destroy_history_ns now && ltb ts (now - destroy_history_ns))
      (forget_dead-HasLocs now hist _ v) v

every_second-HasLocs : (env : Env) (m : Model) → HasLocs m → HasLocs (every_second env m)
unfolding every_second
every_second-HasLocs env m v =
    let refreshed = refresh_join_stats-HasLocs (record m { last_second_ms = env.now_ms }) v in
    if_both HasLocs (has_counters m.counters) (side_line-HasLocs _ _ refreshed) refreshed

pub etw_tick-HasLocs :
    (env : Env) (stats : Stats) (m : Model) → HasLocs m → HasLocs (etw_tick env stats m)
unfolding etw_tick
etw_tick-HasLocs env stats m v =
    let noted = with_etw (λ e. record e { session = stats }) m in
    let expired = expire_pending env.now_ms noted.pending_q noted in
    let forgot = forget_dead (now_ts env expired) expired.destroy_hist expired in
    let kept : HasLocs forgot =
      forget_dead-HasLocs _ _ expired (expire_pending-HasLocs env.now_ms noted.pending_q noted v) in
    if_both HasLocs (not m.etw_enabled) v (
      if_both HasLocs (ltb (sub64 env.now_ms forgot.last_second_ms) 1000) kept
        (every_second-HasLocs env forgot kept))

close_side-HasLocs :
    (env : Env) (stats : Stats) (m : Model) → HasLocs m → HasLocs (close_side env stats m)
unfolding close_side
close_side-HasLocs env stats m v = side_line-HasLocs _ m v

pub finish_etw-HasLocs :
    (env : Env) (stats : Stats) (m : Model) → HasLocs m → HasLocs (finish_etw env stats m)
unfolding finish_etw
finish_etw-HasLocs env stats m v =
    if_both HasLocs m.etw_enabled (close_side-HasLocs env stats _ (refresh_join_stats-HasLocs _ v))
      v

pub set_child_exit_qpc-HasLocs :
    (exit_qpc : ℕ) (m : Model) → HasLocs m → HasLocs (set_child_exit_qpc exit_qpc m)
unfolding set_child_exit_qpc
set_child_exit_qpc-HasLocs exit_qpc m v = if_both HasLocs (not m.hello_seen || m.qpc_freq == 0) v v
