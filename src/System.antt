-- ===== src/System.antt =====
-- The DLL and the launcher together: the events that the tracker of src/dll/Tracker.cpp emits, handed
-- to Model::OnEvent of src/launcher/Model.cpp in order.
pub mod Shared
pub mod Totals
pub mod Screen
use dx12track.Prelude.{ℕ, ◌+◌, List, [], ◌∷◌}
use dx12track.Events.{
  EventHeader, EventKind, protocol_magic, sizeof_created, sizeof_renamed, sizeof_destroyed,
}
use dx12track.Tracker.{Emitted, created, renamed, destroyed}
use dx12track.Model.State.{Model, Env}
use dx12track.Model.Ingest.{Payload, on_event}

-- The system and the time stamp as the i-th event arrives, and what else the buffer holds.
abbrev pub Arrival : Type 0
Arrival = ℕ → Env × ℕ × Payload

abbrev pub header : EventKind → ℕ → ℕ → EventHeader
header kind bytes ts = record {
  magic = protocol_magic;
  payload_bytes = bytes;
  ts_ns = ts;
  kind = kind;
}

-- The call of OnEvent for an event of the tracker, with the payload's whole size.
unfoldable pub receive : Env × ℕ × Payload → Emitted → Model → Model
receive (env, ts, p) (created c) m =
    on_event env (header EventKind.created sizeof_created ts) (record p { as_created = c })
      sizeof_created m
receive (env, ts, p) (renamed r) m =
    on_event env (header EventKind.renamed sizeof_renamed ts) (record p { as_renamed = r })
      sizeof_renamed m
receive (env, ts, p) (destroyed d) m =
    on_event env (header EventKind.destroyed sizeof_destroyed ts) (record p { as_destroyed = d })
      sizeof_destroyed m

unfoldable pub receive_all : Arrival → ℕ → List Emitted → Model → Model
receive_all arrival i [] m = m
receive_all arrival i (e ∷ es) m = receive_all arrival (i + 1) es (receive (arrival i) e m)
