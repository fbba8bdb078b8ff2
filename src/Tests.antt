-- ===== src/Tests.antt =====
-- Runs of the model at concrete inputs, and the theorems at inputs that meet their hypotheses.
mod Attach
mod Course
mod Dll
mod Hooks
mod Install
mod Launcher
mod Monitor
mod Pipe
mod Renderer
mod System
mod Turns
use dx12track.Prelude.{
  ◌+◌, ◌*◌, ◌/◌, ◌≡◌, refl, true, false, List, [], ◌∷◌, some, find, sum_by, arith, u64_max,
}
use Prim.Native.Nat.{min}
use dx12track.Events.{
  EventHeader, EventKind, ObjectType, AllocationKind, CreatedPayload, protocol_magic,
}
use dx12track.Model.State.{Model, Env, ticks_to_ns}
use dx12track.Model.Initial.{initial}
use dx12track.Model.Ingest.{Payload, on_event}
use dx12track.Model.Totals.{HasTotals}
use dx12track.Model.Totals.Events.{on_event-HasTotals}
use dx12track.Model.Locations.Events.{IsTracked, on_event-IsTracked}
use dx12track.Model.Split.{loc_bytes-split}
use dx12track.Model.Recent.{IsShort, on_event-IsShort}
use dx12track.Model.Exit.{filter_of, poll_all, poll_all-filter}
use dx12track.Model.Session.{now_ts}
use dx12track.Model.Clock.{ticks_to_ns-eq-min}

-- The system at one moment: ASCII code units are their own UTF-8.
abbrev pub env : Env
env = record {
  now_ms = 5000;
  qpc = 900;
  signaled = false;
  exit_code = some 259;
  utf8 = λ c. c ∷ [];
}

-- A committed buffer of 4096 bytes in an upload heap.
abbrev buffer : CreatedPayload
buffer = record {
  id = 7;
  size_bytes = 4096;
  parent_heap_id = 0;
  parent_heap_ptr = 0;
  object_ptr = 0x1000;
  heap_offset = 0;
  heap_type = 2;
  dimension = 1;
  format = 0;
  type = ObjectType.resource;
  alloc = AllocationKind.committed;
  frame_count = 0;
  name = 97 ∷ 0 ∷ 98 ∷ [];
  frames = [];
}

abbrev pub buffer_payload : Payload
buffer_payload = record {
  as_hello = record {
    protocol_version = 5;
    pid = 1;
    qpc_frequency = 10;
    qpc_start = 3;
    exe_path = [];
  };
  as_created = buffer;
  as_renamed = record { id = 7; name = 98 ∷ [] };
  as_destroyed = record { id = 7 };
  as_goodbye = record { exit_code = 0 };
}

abbrev pub created_header : EventHeader
created_header = record {
  magic = protocol_magic;
  payload_bytes = 832;
  ts_ns = 50;
  kind = EventKind.created;
}

-- A model with --etw on.
abbrev pub with_sidecar : Model
with_sidecar = record initial { etw_enabled = true; side_open = true }

pub initial-HasTotals : HasTotals with_sidecar
unfolding sum_by find
initial-HasTotals = record {
  bytes = λ h a. refl;
  counts = λ h a. refl;
  per_type = λ t. refl;
  live_bytes = refl;
  live_count = refl;
  fits = omega arith;
  few = omega arith;
  distinct = tt;
  keyed = λ k o e. cc;
}

pub initial-IsTracked : IsTracked with_sidecar
unfolding sum_by find
initial-IsTracked = record {
  locs = record { shares = λ h l. refl; fits = omega arith; keyed = λ k o e. cc };
  no_self = tt;
}

on_event-HasTotals_example : HasTotals (on_event env created_header buffer_payload 832 with_sidecar)
unfolding find sum_by
on_event-HasTotals_example =
    on_event-HasTotals env created_header buffer_payload 832 with_sidecar
      (λ _ _. record { fresh = refl; room = omega arith; few = omega arith }) initial-HasTotals

on_event-IsTracked_example : IsTracked (on_event env created_header buffer_payload 832 with_sidecar)
unfolding find sum_by
on_event-IsTracked_example =
    on_event-IsTracked env created_header buffer_payload 832 with_sidecar refl
      (λ _ _. record { fresh = refl; room = omega arith; few = omega arith }) (λ _. omega arith)
      initial-HasTotals initial-IsTracked

ticks_to_ns-eq-min_example :
    ticks_to_ns 18_446_744_073_709_551_615 10_000_000
    ≡ min (18_446_744_073_709_551_615 * 1_000_000_000 / 10_000_000) u64_max
ticks_to_ns-eq-min_example = ticks_to_ns-eq-min 18_446_744_073_709_551_615 10_000_000 (omega arith)

-- A target that is polled, on a clock of 10 ticks a second.
abbrev polled : Model
polled = record initial { child_process = true; hello_seen = true; qpc_freq = 10 }

-- It runs at tick 20 and at tick 30, is signaled at tick 40, and looks alive at tick 50.
abbrev samples : List Env
samples =
    (record env { qpc = 20 })
    ∷ (record env { qpc = 30 })
    ∷ (record env { qpc = 40; signaled = true })
    ∷ (record env { qpc = 50 })
    ∷ []

poll_all-filter_example : filter_of (poll_all samples polled) ≡ (true, 3_000_000_000, 3_000_000_000)
unfolding now_ts ticks_to_ns
poll_all-filter_example = poll_all-filter samples polled refl refl
