-- ===== src/Model/Initial.antt =====
-- Model::Model() of src/launcher/Model.cpp: the members' initial values in src/launcher/Model.h.
use dx12track.Prelude.{false, [], u64_max}
use dx12track.Etw.{Stats}
use dx12track.Model.State.{EtwSnapshot, Snapshot, Model}

abbrev pub no_stats : Stats
no_stats = record {
  events = 0;
  events_lost = 0;
  buffers_lost = 0;
  exceptions = 0;
  rundowns = 0;
  rundown_failures = 0;
}

abbrev pub empty_etw : EtwSnapshot
empty_etw = record {
  enabled = false;
  running = false;
  status = [];
  counter = λ k. 0;
  counter_seen = λ k. false;
  loc_bytes = λ h l. 0;
  live = λ t. 0;
  sized = λ t. 0;
  bytes = λ t. 0;
  bound = 0;
  unbound = 0;
  pending = 0;
  unbound_by_type = λ t. 0;
  binds = 0;
  rundown_duplicates = 0;
  pending_expired = 0;
  created = 0;
  late_matches = 0;
  group_changes = 0;
  make_resident = 0;
  evict = 0;
  page_ins = 0;
  page_outs = 0;
  post_exit_ignored = 0;
  diagnostics = 0;
  rundown_interval_ms = 0;
  session = no_stats;
}

abbrev pub empty_snapshot : Snapshot
empty_snapshot = record {
  pid = 0;
  exe_path = [];
  dll_start_ns = 0;
  latest_ns = 0;
  child_exited = false;
  child_exit_code = 0;
  live_count = 0;
  live_bytes = 0;
  per_type_counts = λ t. 0;
  totals = record { bytes = λ h a. 0; counts = λ h a. 0 };
  recent = [];
  etw = empty_etw;
}

abbrev pub initial : Model
initial = record {
  s = empty_snapshot;
  live = [];
  etw_enabled = false;
  hello_seen = false;
  qpc_freq = 0;
  qpc_start = 0;
  qpc_start_ns = 0;
  child_exit_ts = u64_max;
  child_process = false;
  child_alive_ts = 0;
  child_exiting = false;
  exit_cutoff_ts = u64_max;
  ptr_to_id = [];
  dead_by_ptr = [];
  destroy_hist = [];
  children = [];
  etw_objs = [];
  etw_alias = [];
  etw_by_addr = [];
  pending_q = [];
  counters = [];
  last_second_ms = 0;
  side_open = false;
  side_prebuf = [];
  side_file = [];
  session_name = [];
  main_log_path = [];
  rundown_interval_ms = 0;
}
