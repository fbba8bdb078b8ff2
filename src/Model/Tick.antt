-- ===== src/Model/Tick.antt =====
-- EtwTick, FinishEtw, OnEtwCounter and OnEtwDiagnostic of src/launcher/Model.cpp.
use dx12track.Prelude.{
  ℕ, ℤ, pos, negsuc, Bool, true, false, not, ◌&&◌, ◌||◌, List, [], ◌∷◌, ◌++◌, Map, put, leb, ltb,
  ◌==◌, if◌then◌else◌, add64, sub64,
}
use dx12track.Etw.{CounterKind, Stats, counter_index}
use dx12track.Json
use dx12track.Json.{Text, J}
use dx12track.Model.State.{CounterVal, EtwSnapshot, Model, Env, inc}
use dx12track.Model.Join.{with_etw, side_line}
use dx12track.Model.Session.{
  conv_ts, now_ts, sample_for, is_after_exit, refresh_join_stats, expire_pending, forget_dead,
  sum_counters, counter_seen_in,
}
use Prim.Native.String.{String}

-- kKeys
unfoldable pub counter_keys : List (CounterKind × String)
counter_keys =
    (CounterKind.local_budget, "local_budget")
    ∷ (CounterKind.local_resident, "local_resident")
    ∷ (CounterKind.local_usage, "local_usage")
    ∷ (CounterKind.nonlocal_budget, "nonlocal_budget")
    ∷ (CounterKind.nonlocal_resident, "nonlocal_resident")
    ∷ (CounterKind.nonlocal_usage, "nonlocal_usage")
    ∷ (CounterKind.demoted_min, "demoted_min")
    ∷ (CounterKind.demoted_low, "demoted_low")
    ∷ (CounterKind.demoted_normal, "demoted_normal")
    ∷ (CounterKind.demoted_high, "demoted_high")
    ∷ (CounterKind.demoted_max, "demoted_max")
    ∷ (CounterKind.paging_local_to_nonlocal, "paging_local_to_nonlocal")
    ∷ (CounterKind.paging_nonlocal_to_local, "paging_nonlocal_to_local")
    ∷ []

unfoldable pub is_demoted : ℕ → Bool
is_demoted k = leb 6 k && leb k 10

unfoldable pub key_fields : List (CounterKind × String) → Map CounterVal → J → J
key_fields [] cs j = j
key_fields ((kind, key) ∷ ks) cs j =
    let k = counter_index kind in
    key_fields ks cs (if counter_seen_in cs k then Json.u key (sum_counters cs k) j else j)

unfoldable pub demoted_sum : List (CounterKind × String) → Map CounterVal → ℕ → ℕ
demoted_sum [] cs acc = acc
demoted_sum ((kind, key) ∷ ks) cs acc =
    let k = counter_index kind in
    demoted_sum ks cs
      (if counter_seen_in cs k && is_demoted k then add64 acc (sum_counters cs k) else acc)

unfoldable pub any_demoted : List (CounterKind × String) → Map CounterVal → Bool
any_demoted [] cs = false
any_demoted ((kind, key) ∷ ks) cs =
    let k = counter_index kind in (counter_seen_in cs k && is_demoted k) || any_demoted ks cs

unfoldable pub counters_line : ℕ → Model → Text
counters_line now m =
    let j = key_fields counter_keys m.counters (Json.start "counters" now) in
    Json.done (
      Json.u "page_outs" m.s.etw.page_outs (
        Json.u "page_ins" m.s.etw.page_ins (
          if any_demoted counter_keys m.counters
          then Json.u "demoted" (demoted_sum counter_keys m.counters 0) j
          else j)))

pub has_counters : Map CounterVal → Bool
has_counters [] = false
has_counters (c ∷ cs) = true

-- What happens once a second.
unfoldable pub every_second : Env → Model → Model
every_second env m =
    let refreshed = refresh_join_stats (record m { last_second_ms = env.now_ms }) in
    if has_counters m.counters
    then side_line (counters_line (now_ts env m) refreshed) refreshed
    else refreshed

unfoldable pub etw_tick : Env → Stats → Model → Model
unfolding every_second
etw_tick env stats m =
    let noted = with_etw (λ e. record e { session = stats }) m in
    let expired = expire_pending env.now_ms noted.pending_q noted in
    let forgot = forget_dead (now_ts env expired) expired.destroy_hist expired in
    if not m.etw_enabled
    then m
    else if ltb (sub64 env.now_ms forgot.last_second_ms) 1000
    then forgot
    else every_second env forgot

unbound_fields : EtwSnapshot → J → J
unbound_fields e j = Json.u "unbound_meta_command" (e.unbound_by_type 8) (
    Json.u "unbound_descriptor_heap" (e.unbound_by_type 7) (
      Json.u "unbound_command_allocator" (e.unbound_by_type 6) (
        Json.u "unbound_state_object" (e.unbound_by_type 5) (
          Json.u "unbound_pipeline_state" (e.unbound_by_type 4) (
            Json.u "unbound_heap" (e.unbound_by_type 3) (
              Json.u "unbound_resource" (e.unbound_by_type 2)
                (Json.u "unbound_device" (e.unbound_by_type 1) j)))))))

session_fields : Stats → J → J
session_fields st j = Json.u "rundown_failures" st.rundown_failures (
    Json.u "rundowns" st.rundowns (
      Json.u "exceptions" st.exceptions (
        Json.u "buffers_lost" st.buffers_lost
          (Json.u "events_lost" st.events_lost (Json.u "events" st.events j)))))

join_fields : EtwSnapshot → J → J
join_fields e j = Json.u "pending_expired" e.pending_expired (
    Json.u "unbound_alive" e.unbound (
      Json.u "bound_alive" e.bound (
        Json.u "late_matches" e.late_matches (
          Json.u "binds" e.binds (
            Json.u "rundown_duplicates" e.rundown_duplicates
              (Json.u "etw_objects_created" e.created j))))))

change_fields : EtwSnapshot → J → J
change_fields e j = Json.u "diagnostics" e.diagnostics (
    Json.u "post_exit_ignored" e.post_exit_ignored (
      Json.u "page_outs" e.page_outs (
        Json.u "page_ins" e.page_ins (
          Json.u "evict" e.evict
            (Json.u "make_resident" e.make_resident (Json.u "group_changes" e.group_changes j))))))

unfoldable pub stats_line : Env → Stats → Model → Text
unfolding unbound_fields session_fields join_fields change_fields
stats_line env st m =
    let e = m.s.etw in
    Json.done (
      unbound_fields e (
        change_fields e
          (join_fields e (session_fields st (Json.start "etw_stats" (now_ts env m))))))

-- The sidecar gets its last line and what never saw Hello, and is closed.
unfoldable pub close_side : Env → Stats → Model → Model
close_side env st m =
    let written = side_line (stats_line env st m) m in
    record written {
      side_open = false;
      side_file =
          if m.side_open then written.side_file ++ written.side_prebuf else written.side_file;
      side_prebuf = if m.side_open then [] else written.side_prebuf;
    }

unfoldable pub finish_etw : Env → Stats → Model → Model
unfolding close_side
finish_etw env st m =
    let noted = with_etw (λ e. record e { session = st; running = false }) m in
    if m.etw_enabled then close_side env st (refresh_join_stats noted) else noted

-- What OnEtwCounter does with a double: `value * 1e6`, `> 0`, and the cast of `+ 0.5`.
pub record Double : Type 1 where
  pub F64 : Type 0
  pub times_million : F64 → F64
  pub is_positive : F64 → Bool
  pub round_to_u64 : F64 → ℕ

module _ (d : Double) where
  open d use {F64, times_million, is_positive, round_to_u64}

  unfoldable pub counter_bytes : F64 → ℕ
  counter_bytes value_mb =
      let b = times_million value_mb in if is_positive b then round_to_u64 b else 0

  unfoldable pub store_counter : ℕ → CounterKind → F64 → Model → Model
  store_counter counter_id kind value_mb m = record m {
    counters = put counter_id (record { kind = kind; bytes = counter_bytes value_mb }) m.counters;
  }

  unfoldable pub on_etw_counter : Env → ℤ → ℕ → CounterKind → F64 → Model → Model
  unfolding store_counter
  on_etw_counter env (negsuc n) counter_id kind value_mb m = m
  on_etw_counter env (pos n) counter_id kind value_mb m =
      let ts = conv_ts (pos n) m in
      let sampled = sample_for env ts m in
      if not m.etw_enabled || n == 0
      then m
      else if is_after_exit ts sampled
      then sampled
      else store_counter counter_id kind value_mb sampled

unfoldable pub on_etw_diagnostic : Env → Bool → ℤ → List ℕ → Model → Model
on_etw_diagnostic env error code message m =
    if not m.etw_enabled
    then m
    else side_line
        (Json.done (
          Json.wstr env.utf8 "msg" message (
            Json.i "code" code (
              Json.str "severity" (if error then "error" else "warning")
                (Json.start "etw_diag" (now_ts env m))))))
        (with_etw (λ s. record s { diagnostics = inc s.diagnostics }) m)
