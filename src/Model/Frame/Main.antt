-- ===== src/Model/Frame/Main.antt =====
-- The calls of the main loop (Model/Session.antt, Model/Tick.antt) leave the objects' own fields and the
-- totals alone.
use dx12track.Prelude.{
  ℕ, ◌-◌, Bool, refl, true, List, [], ◌∷◌, not, ◌&&◌, ◌||◌, ◌==◌, find, ltb, sub64, nonzero,
  if_both, option_both,
}
use dx12track.Etw.{Stats}
use dx12track.Model.State.{Model, Env, etw_pending_timeout_ms, destroy_history_ns, inc}
use dx12track.Model.Join.{with_etw, edit_etw}
use dx12track.Model.Session.{
  now_ts, refresh_join_stats, expire_pending, forget_dead, set_child_exit_qpc, set_child_process,
  set_etw_running,
}
use dx12track.Model.Tick.{every_second, has_counters, etw_tick, close_side, finish_etw}
use dx12track.Model.Stays.{Stays, Stays-refl, Stays-trans, Stays-rest, Stays-objs}
use dx12track.Model.Frame.{side_line-Stays}

refresh_join_stats-Stays : (m : Model) → Stays m (refresh_join_stats m)
unfolding refresh_join_stats
refresh_join_stats-Stays m = Stays-rest refl refl refl refl refl refl

expire_pending-Stays : (now : ℕ) (q : List ℕ) (m : Model) → Stays m (expire_pending now q m)
unfolding expire_pending
expire_pending-Stays now [] m = Stays-rest refl refl refl refl refl refl
expire_pending-Stays now (key ∷ q) m =
    let skipped = expire_pending-Stays now q m in
    let expired = expire_pending-Stays now q (
      with_etw (λ e. record e { pending_expired = inc e.pending_expired })
        (edit_etw key (λ o. record o { pending_since_ms = 0; expired = true }) m)) in
    option_both (Stays m) (find key m.etw_objs) skipped (λ o _.
      if_both (Stays m) (nonzero o.bound_id || not (nonzero o.pending_since_ms)) skipped (
        if_both (Stays m) (ltb (sub64 now o.pending_since_ms) etw_pending_timeout_ms)
          (Stays-rest refl refl refl refl refl refl)
          (Stays-trans
            (Stays-objs key (λ x. record x { pending_since_ms = 0; expired = true })
              (λ x. (refl, refl)) refl refl refl refl refl refl)
            expired)))

forget_dead-Stays : (now : ℕ) (hist : List (ℕ × ℕ)) (m : Model) → Stays m (forget_dead now hist m)
unfolding forget_dead
forget_dead-Stays now [] m = Stays-rest refl refl refl refl refl refl
forget_dead-Stays now ((ts, ptr) ∷ hist) m =
    if_both (Stays m) (ltb destroy_history_ns now && ltb ts (now - destroy_history_ns))
      (Stays-trans (Stays-rest refl refl refl refl refl refl) (forget_dead-Stays now hist _))
      (Stays-rest refl refl refl refl refl refl)

every_second-Stays : (env : Env) (m : Model) → Stays m (every_second env m)
unfolding every_second
every_second-Stays env m =
    let refreshed : Stays m (refresh_join_stats (record m { last_second_ms = env.now_ms })) =
      Stays-trans (Stays-rest refl refl refl refl refl refl) (refresh_join_stats-Stays _) in
    if_both (Stays m) (has_counters m.counters) (Stays-trans refreshed (side_line-Stays _ _))
      refreshed

pub etw_tick-Stays : (env : Env) (stats : Stats) (m : Model) → Stays m (etw_tick env stats m)
unfolding etw_tick
etw_tick-Stays env stats m =
    let noted = with_etw (λ e. record e { session = stats }) m in
    let expired = expire_pending env.now_ms noted.pending_q noted in
    let forgot = forget_dead (now_ts env expired) expired.destroy_hist expired in
    let kept : Stays m forgot = Stays-trans (Stays-rest refl refl refl refl refl refl) (
      Stays-trans (expire_pending-Stays env.now_ms noted.pending_q noted)
        (forget_dead-Stays _ _ expired)) in
    if_both (Stays m) (not m.etw_enabled) (Stays-refl m) (
      if_both (Stays m) (ltb (sub64 env.now_ms forgot.last_second_ms) 1000) kept
        (Stays-trans kept (every_second-Stays env forgot)))

close_side-Stays : (env : Env) (stats : Stats) (m : Model) → Stays m (close_side env stats m)
unfolding close_side
close_side-Stays env stats m =
    Stays-trans (side_line-Stays _ m) (Stays-rest refl refl refl refl refl refl)

pub finish_etw-Stays : (env : Env) (stats : Stats) (m : Model) → Stays m (finish_etw env stats m)
unfolding finish_etw
finish_etw-Stays env stats m =
    if_both (Stays m) m.etw_enabled
      (Stays-trans (Stays-rest refl refl refl refl refl refl)
        (Stays-trans (refresh_join_stats-Stays _) (close_side-Stays env stats _)))
      (Stays-rest refl refl refl refl refl refl)

pub set_child_exit_qpc-Stays : (exit_qpc : ℕ) (m : Model) → Stays m (set_child_exit_qpc exit_qpc m)
unfolding set_child_exit_qpc
set_child_exit_qpc-Stays exit_qpc m =
    if_both (Stays m) (not m.hello_seen || m.qpc_freq == 0) (Stays-refl m)
      (Stays-rest refl refl refl refl refl refl)

pub set_child_process-Stays : (handle : Bool) (m : Model) → Stays m (set_child_process handle m)
unfolding set_child_process
set_child_process-Stays handle m = Stays-rest refl refl refl refl refl refl

pub set_etw_running-Stays : (running : Bool) (m : Model) → Stays m (set_etw_running running m)
unfolding set_etw_running
set_etw_running-Stays running m = Stays-rest refl refl refl refl refl refl
