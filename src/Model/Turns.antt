-- ===== src/Model/Turns.antt =====
-- The threads of the launcher on one Model (src/launcher/Model.h): the reader of the pipe, the ETW
-- consumer and the main loop. Each call holds the mutex, so a run is a list of calls, whichever thread
-- each comes from.
pub mod Totals
pub mod Locations
pub mod Pairs
use dx12track.Prelude.{ℕ, ℤ, Bool, List, [], ◌∷◌}
use dx12track.Events.{EventHeader}
use dx12track.Etw.{ObjType, Group, GroupChange, ResidencyOp, CounterKind, Stats}
use dx12track.Model.State.{Model, Env}
use dx12track.Model.Ingest.{Payload, on_event, mark_child_exited}
use dx12track.Model.Session.{
  poll_child, set_child_exit_qpc, set_child_process, enable_etw, disable_etw, set_etw_running,
}
use dx12track.Model.Sink.{
  on_etw_object_created, on_etw_object_address, on_etw_object_destroyed, on_etw_object_size,
  on_etw_group_changes, on_etw_residency,
}
use dx12track.Model.Tick.{etw_tick, finish_etw, Double, on_etw_counter, on_etw_diagnostic}

module _ (d : Double) where
  -- A call of the ETW consumer or of the main loop that changes the model.
  pub data Other : Type 0 where
    object_created : ℤ → ℕ → ObjType → ℕ → Group → Other
    object_address : Env → ℕ → ℕ → Other
    object_destroyed : ℤ → ℕ → Other
    object_size : ℤ → ℕ → ℕ → Other
    group_changes : List (GroupChange × Env) → Other
    residency : Env → ℤ → ℕ → ObjType → ResidencyOp → Other
    counter : Env → ℤ → ℕ → CounterKind → d.F64 → Other
    diagnostic : Env → Bool → ℤ → List ℕ → Other
    tick finish : Env → Stats → Other
    poll : Env → Other
    exit_qpc exited : ℕ → Other
    process running : Bool → Other
    enable : Bool → List ℕ → List ℕ → ℕ → Other
    disable : List ℕ → Other

  -- Or of the pipe's reader.
  pub data Turn : Type 0 where
    event : Env → EventHeader → Payload → ℕ → Turn
    other : Other → Turn

  unfoldable pub call : Other → Model → Model
  call (Other.object_created ts lib_id type size group) =
      on_etw_object_created ts lib_id type size group
  call (Other.object_address env lib_id address) = on_etw_object_address env lib_id address
  call (Other.object_destroyed ts lib_id) = on_etw_object_destroyed ts lib_id
  call (Other.object_size ts lib_id size) = on_etw_object_size ts lib_id size
  call (Other.group_changes cs) = on_etw_group_changes cs
  call (Other.residency env ts lib_id type op) = on_etw_residency env ts lib_id type op
  call (Other.counter env ts id kind value) = on_etw_counter d env ts id kind value
  call (Other.diagnostic env error code message) = on_etw_diagnostic env error code message
  call (Other.tick env stats) = etw_tick env stats
  call (Other.finish env stats) = finish_etw env stats
  call (Other.poll env) = poll_child env
  call (Other.exit_qpc qpc) = set_child_exit_qpc qpc
  call (Other.exited code) = mark_child_exited code
  call (Other.process handle) = set_child_process handle
  call (Other.running r) = set_etw_running r
  call (Other.enable opened name path interval) = enable_etw opened name path interval
  call (Other.disable reason) = disable_etw reason

  unfoldable pub turn : Turn → Model → Model
  turn (Turn.event env hdr p bytes) = on_event env hdr p bytes
  turn (Turn.other c) = call c

  unfoldable pub turns : List Turn → Model → Model
  turns [] m = m
  turns (c ∷ cs) m = turns cs (turn c m)
