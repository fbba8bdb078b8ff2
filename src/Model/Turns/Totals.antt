-- ===== src/Model/Turns/Totals.antt =====
-- The totals over the calls of all threads (src/launcher/Model.h).
use dx12track.Prelude.{◌≡◌, refl, Bool, true, false, List, [], ◌∷◌}
use dx12track.Model.State.{Model}
use dx12track.Model.Tick.{Double}
use dx12track.Model.Turns.{Other, Turn, call, turn, turns}
use dx12track.Model.Totals.{HasTotals, Retains-HasTotals}
use dx12track.Model.Totals.Events.{Accepts, on_event-HasTotals, mark_child_exited-Keeps}
use dx12track.Model.Core.{cores, Keeps}
use dx12track.Model.Session.{enable_etw, disable_etw}
use dx12track.Model.Frame.Sink.{poll_child-Stays}
use dx12track.Model.Frame.Calls.{
  on_etw_object_created-Keeps, on_etw_object_address-Keeps, on_etw_object_destroyed-Keeps,
  on_etw_object_size-Stays, on_etw_group_changes-Stays, on_etw_residency-Stays,
  on_etw_counter-Stays, on_etw_diagnostic-Stays,
}
use dx12track.Model.Frame.Main.{
  etw_tick-Stays, finish_etw-Stays, set_child_exit_qpc-Stays, set_child_process-Stays,
  set_etw_running-Stays,
}

module _ (d : Double) where
  -- What a call needs of the model it meets: only a whole `Created` event needs something.
  abbrev pub Admits : Turn d → Model → Type 0
  Admits (Turn.event env hdr p bytes) m = Accepts hdr p bytes m
  Admits (Turn.other c) m = Unit

  abbrev pub AdmitsAll : List (Turn d) → Model → Type 0
  AdmitsAll [] m = Unit
  AdmitsAll (c ∷ cs) m = Admits c m × AdmitsAll cs (turn d c m)

  -- EnableEtw and DisableEtw turn the join on and off; every other call leaves it as it is.
  abbrev pub leaves_etw : Other d → Bool
  leaves_etw (Other.enable opened name path interval) = false
  leaves_etw (Other.disable reason) = false
  leaves_etw _ = true

  pub call-Keeps : (c : Other d) (m : Model) → leaves_etw c ≡ true → Keeps m (call d c m)
  unfolding call
  call-Keeps (Other.object_created ts lib_id type size group) m h =
      on_etw_object_created-Keeps ts lib_id type size group m
  call-Keeps (Other.object_address env lib_id address) m h =
      on_etw_object_address-Keeps env lib_id address m
  call-Keeps (Other.object_destroyed ts lib_id) m h = on_etw_object_destroyed-Keeps ts lib_id m
  call-Keeps (Other.object_size ts lib_id size) m h =
      (on_etw_object_size-Stays ts lib_id size m).keeps
  call-Keeps (Other.group_changes cs) m h = (on_etw_group_changes-Stays cs m).keeps
  call-Keeps (Other.residency env ts lib_id type op) m h =
      (on_etw_residency-Stays env ts lib_id type op m).keeps
  call-Keeps (Other.counter env ts id kind value) m h =
      (on_etw_counter-Stays d env ts id kind value m).keeps
  call-Keeps (Other.diagnostic env error code message) m h =
      (on_etw_diagnostic-Stays env error code message m).keeps
  call-Keeps (Other.tick env stats) m h = (etw_tick-Stays env stats m).keeps
  call-Keeps (Other.finish env stats) m h = (finish_etw-Stays env stats m).keeps
  call-Keeps (Other.poll env) m h = (poll_child-Stays env m).keeps
  call-Keeps (Other.exit_qpc qpc) m h = (set_child_exit_qpc-Stays qpc m).keeps
  call-Keeps (Other.exited code) m h = mark_child_exited-Keeps code m
  call-Keeps (Other.process handle) m h = (set_child_process-Stays handle m).keeps
  call-Keeps (Other.running r) m h = (set_etw_running-Stays r m).keeps
  call-Keeps (Other.enable opened name path interval) m h = cc
  call-Keeps (Other.disable reason) m h = cc

  pub call-cores : (c : Other d) (m : Model) → cores (call d c m).live ≡ cores m.live
  unfolding call enable_etw disable_etw
  call-cores (Other.enable opened name path interval) m = refl
  call-cores (Other.disable reason) m = refl
  call-cores c m = (call-Keeps c m refl).retains.same_cores

  call-HasTotals : (c : Other d) (m : Model) → HasTotals m → HasTotals (call d c m)
  unfolding call enable_etw disable_etw
  call-HasTotals (Other.enable opened name path interval) m v = v
  call-HasTotals (Other.disable reason) m v = v
  call-HasTotals c m v = Retains-HasTotals ((call-Keeps c m refl).retains) v

  pub turn-HasTotals : (c : Turn d) (m : Model) → Admits c m → HasTotals m → HasTotals (turn d c m)
  unfolding turn
  turn-HasTotals (Turn.event env hdr p bytes) m a v = on_event-HasTotals env hdr p bytes m a v
  turn-HasTotals (Turn.other c) m a v = call-HasTotals c m v

  -- However the calls of the pipe's reader, the ETW consumer and the main loop follow each other, they
  -- keep each cell of the totals, the live bytes, the live count and the counts by type equal to the sums
  -- over the live objects, if each whole `Created` event brings an id that is not live then and sizes
  -- that leave the sum below 2^64.
  pub turns-HasTotals :
      (cs : List (Turn d)) (m : Model) → AdmitsAll cs m → HasTotals m → HasTotals (turns d cs m)
  unfolding turns
  turns-HasTotals [] m a v = v
  turns-HasTotals (c ∷ cs) m a v = turns-HasTotals cs (turn d c m) a.1 (turn-HasTotals c m a.0 v)
