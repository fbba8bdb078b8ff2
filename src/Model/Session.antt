-- ===== src/Model/Session.antt =====
-- Model.cpp: the ETW session's setup, the periodic tick, its end, and the filter for events after
-- the child began to exit. The FILE's buffering is not part of the state.
use dx12track.Prelude.{
  ℕ, ℤ, pos, negsuc, ◌-◌, Bool, true, false, not, ◌&&◌, ◌||◌, List, [], ◌∷◌, Option, none, some,
  Map, find, put, erase, ltb, nonzero, ◌==◌, if◌then◌else◌, add64, sub64,
}
use dx12track.Etw.{obj_type_index, counter_index}
use dx12track.Json
use dx12track.Json.{Text, J}
use dx12track.Model.State.{
  EtwSnapshot, Snapshot, EtwObj, DeadObj, CounterVal, Model, Env, ticks_to_ns,
  etw_pending_timeout_ms, destroy_history_ns, inc, write,
}
use dx12track.Model.Join.{with_etw, edit_etw, side_line}

-- ConvTs: an absolute timestamp on the timeline of the DLL's clock.
unfoldable pub conv_ts : ℤ → Model → ℕ
conv_ts (negsuc n) m = 0
conv_ts (pos a) m =
    if not m.hello_seen || a == 0 then 0 else if ltb m.qpc_start_ns a then a - m.qpc_start_ns else 0

-- NowTsLocked
unfoldable pub now_ts : Env → Model → ℕ
now_ts env m =
    if not m.hello_seen || m.qpc_freq == 0
    then 0
    else if ltb m.qpc_start env.qpc
    then ticks_to_ns (env.qpc - m.qpc_start) m.qpc_freq
    else 0

abbrev pub still_active : ℕ
still_active = 259

unfoldable pub detected : ℕ → ℕ → J
detected cutoff now = Json.u "detected_ns" now (Json.start "target_exiting" cutoff)

unfoldable pub exiting_line : ℕ → ℕ → Option ℕ → J
exiting_line cutoff now none = detected cutoff now
exiting_line cutoff now (some code) =
    if code == still_active
    then detected cutoff now
    else Json.u "exit_code" code (detected cutoff now)

-- The end of PollChildLocked: from now on, later events may be teardown.
unfoldable pub note_exit : ℕ → Option ℕ → Model → Model
note_exit now code m =
    side_line (Json.done (exiting_line m.child_alive_ts now code))
      (record m { child_exiting = true; exit_cutoff_ts = m.child_alive_ts })

unfoldable pub poll_child : Env → Model → Model
poll_child env m =
    if m.child_exiting || not m.child_process
    then m
    else if env.signaled
    then note_exit (now_ts env m) env.exit_code m
    else elim env.exit_code [
      | none ↦ m
      | some code ↦
          if code == still_active
          then record m { child_alive_ts = now_ts env m }
          else note_exit (now_ts env m) (some code) m
    ]

-- AfterChildExitLocked, in its two parts: the fresh sample, and the test.
unfoldable pub sample_for : Env → ℕ → Model → Model
sample_for env ts m = if ltb m.child_alive_ts ts then poll_child env m else m

unfoldable pub is_after_exit : ℕ → Model → Bool
is_after_exit ts m = ltb m.exit_cutoff_ts ts || ltb m.child_exit_ts ts

unfoldable pub set_child_exit_qpc : ℕ → Model → Model
set_child_exit_qpc exit_qpc m = if not m.hello_seen || m.qpc_freq == 0 then m else record m {
  child_exit_ts =
      if ltb m.qpc_start exit_qpc then ticks_to_ns (exit_qpc - m.qpc_start) m.qpc_freq else 0;
}

unfoldable pub set_child_process : Bool → Model → Model
set_child_process handle m = record m { child_process = handle }

-- `opened`: did _wfopen succeed?
unfoldable pub enable_etw : Bool → List ℕ → List ℕ → ℕ → Model → Model
enable_etw opened session_name main_log_path interval m = record m {
  etw_enabled = true;
  s = record (m.s) { etw = record (m.s.etw) { enabled = true; rundown_interval_ms = interval } };
  session_name = session_name;
  main_log_path = main_log_path;
  rundown_interval_ms = interval;
  side_open = opened;
  side_file = if opened then [] else m.side_file;
}

-- The session could not start: the sidecar is deleted.
unfoldable pub disable_etw : List ℕ → Model → Model
disable_etw reason m = record m {
  s = record (m.s) { etw = record (m.s.etw) { running = false; status = reason } };
  etw_enabled = false;
  side_open = false;
  side_file = if m.side_open then [] else m.side_file;
  side_prebuf = [];
}

unfoldable pub set_etw_running : Bool → Model → Model
set_etw_running running = with_etw (λ e. record e { running = running })

-- One round of RefreshJoinStats.
unfoldable pub count_etw_obj : EtwObj → EtwSnapshot → EtwSnapshot
count_etw_obj o e =
    let t = obj_type_index o.type in
    if nonzero o.bound_id
    then record e { bound = inc e.bound }
    else if nonzero o.orphan_ts
    then e
    else record e {
      unbound = inc e.unbound;
      unbound_by_type = write e.unbound_by_type t (inc (e.unbound_by_type t));
      pending = if nonzero o.pending_since_ms then inc e.pending else e.pending;
    }

unfoldable pub count_each : Map EtwObj → EtwSnapshot → EtwSnapshot
count_each [] e = e
count_each ((key, o) ∷ objs) e = count_each objs (count_etw_obj o e)

unfoldable pub refresh_join_stats : Model → Model
refresh_join_stats m =
    with_etw
      (λ e.
        count_each m.etw_objs
          (record e { bound = 0; unbound = 0; pending = 0; unbound_by_type = λ t. 0 }))
      m

-- The pending queue's loop of EtwTick: it stops at the first object whose time is not up.
unfoldable pub expire_pending : ℕ → List ℕ → Model → Model
expire_pending now [] m = record m { pending_q = [] }
expire_pending now (key ∷ q) m =
    let skip = expire_pending now q m in
    let expire = expire_pending now q (
      with_etw (λ e. record e { pending_expired = inc e.pending_expired })
        (edit_etw key (λ o. record o { pending_since_ms = 0; expired = true }) m)) in
    elim (find key m.etw_objs) [
      | none ↦ skip
      | some o ↦
          if nonzero o.bound_id || not (nonzero o.pending_since_ms)
          then skip
          else if ltb (sub64 now o.pending_since_ms) etw_pending_timeout_ms
          then record m { pending_q = key ∷ q }
          else expire
    ]

-- Destroyed objects older than the horizon leave the front of an address's list.
unfoldable pub drop_older : ℕ → List DeadObj → List DeadObj
drop_older horizon [] = []
drop_older horizon (x ∷ xs) = if ltb x.destroyed_ns horizon then drop_older horizon xs else x ∷ xs

unfoldable pub forget_at : ℕ → ℕ → Map (List DeadObj) → Map (List DeadObj)
forget_at horizon ptr dead = elim (find ptr dead) [
  | none ↦ dead
  | some xs ↦ elim (drop_older horizon xs) [ [] ↦ erase ptr dead | y ∷ ys ↦ put ptr (y ∷ ys) dead ]
]

-- The second loop of EtwTick.
unfoldable pub forget_dead : ℕ → List (ℕ × ℕ) → Model → Model
forget_dead now [] m = record m { destroy_hist = [] }
forget_dead now ((ts, ptr) ∷ hist) m =
    let rest =
      forget_dead now hist
        (record m { dead_by_ptr = forget_at (now - destroy_history_ns) ptr m.dead_by_ptr }) in
    if ltb destroy_history_ns now && ltb ts (now - destroy_history_ns)
    then rest
    else record m { destroy_hist = (ts, ptr) ∷ hist }

-- The counters of each kind, summed over the adapters, and which kinds were seen.
unfoldable pub sum_counters : Map CounterVal → ℕ → ℕ
sum_counters [] k = 0
sum_counters ((id, c) ∷ cs) k =
    if counter_index c.kind == k then add64 (sum_counters cs k) c.bytes else sum_counters cs k

unfoldable pub counter_seen_in : Map CounterVal → ℕ → Bool
counter_seen_in [] k = false
counter_seen_in ((id, c) ∷ cs) k = counter_index c.kind == k || counter_seen_in cs k

unfoldable pub get_snapshot : Model → Snapshot
get_snapshot m =
    if m.etw_enabled
    then record (m.s) {
      etw = record (m.s.etw) {
        counter = λ k. add64 (m.s.etw.counter k) (sum_counters m.counters k);
        counter_seen = λ k. m.s.etw.counter_seen k || counter_seen_in m.counters k;
      };
    }
    else m.s
