-- ===== src/Model/Turns/Pairs.antt =====
-- The binding of tracked objects to ETW objects over the calls of all threads (src/launcher/Model.h).
use dx12track.Prelude.{ℕ, ◌≡◌, ◌≢◌, refl, sym, ap, ◌∙◌, List, [], ◌∷◌}
use dx12track.Events.{EventKind}
use dx12track.Model.State.{Model}
use dx12track.Model.Session.{enable_etw, disable_etw}
use dx12track.Model.Tick.{Double}
use dx12track.Model.Stays.{key_at, bound_at}
use dx12track.Model.Frame.Sink.{poll_child-Stays}
use dx12track.Model.Frame.Calls.{
  on_etw_object_size-Stays, on_etw_group_changes-Stays, on_etw_residency-Stays,
  on_etw_counter-Stays, on_etw_diagnostic-Stays,
}
use dx12track.Model.Frame.Main.{
  etw_tick-Stays, finish_etw-Stays, set_child_exit_qpc-Stays, set_child_process-Stays,
  set_etw_running-Stays,
}
use dx12track.Model.Pairs.{HasPairs, Stays-HasPairs, HasPairs-move}
use dx12track.Model.Pairs.Events.{on_event-HasPairs, mark_child_exited-HasPairs}
use dx12track.Model.Pairs.Calls.{on_etw_object_created-HasPairs, on_etw_object_address-HasPairs}
use dx12track.Model.Pairs.Drop.{on_etw_object_destroyed-HasPairs}
use dx12track.Model.Turns.{Other, Turn, call, turn, turns}

-- No two tracked objects have the same partner, and a partner is bound to its object.
abbrev pub HasOwnPartners : Model → Type 0
HasOwnPartners m =
    ((id : ℕ) → key_at m.live id ≢ 0 → bound_at m.etw_objs (key_at m.live id) ≡ id)
    × ((i j : ℕ) → key_at m.live i ≢ 0 → key_at m.live i ≡ key_at m.live j → i ≡ j)

HasPairs-HasOwnPartners : (m : Model) → HasPairs m → HasOwnPartners m
HasPairs-HasOwnPartners m v = (
  v.paired.agrees,
  λ i j ne e.
      sym (v.paired.agrees i ne)
      ∙ (ap (bound_at m.etw_objs) e ∙ v.paired.agrees j (λ z. ne (e ∙ z))),
)

module _ (d : Double) where
  call-HasPairs : (c : Other d) (m : Model) → HasPairs m → HasPairs (call d c m)
  unfolding call enable_etw disable_etw
  call-HasPairs (Other.object_created ts lib_id type size group) m v =
      on_etw_object_created-HasPairs ts lib_id type size group m v
  call-HasPairs (Other.object_address env lib_id address) m v =
      on_etw_object_address-HasPairs env lib_id address m v
  call-HasPairs (Other.object_destroyed ts lib_id) m v =
      on_etw_object_destroyed-HasPairs ts lib_id m v
  call-HasPairs (Other.object_size ts lib_id size) m v =
      Stays-HasPairs (on_etw_object_size-Stays ts lib_id size m) v
  call-HasPairs (Other.group_changes cs) m v = Stays-HasPairs (on_etw_group_changes-Stays cs m) v
  call-HasPairs (Other.residency env ts lib_id type op) m v =
      Stays-HasPairs (on_etw_residency-Stays env ts lib_id type op m) v
  call-HasPairs (Other.counter env ts id kind value) m v =
      Stays-HasPairs (on_etw_counter-Stays d env ts id kind value m) v
  call-HasPairs (Other.diagnostic env error code message) m v =
      Stays-HasPairs (on_etw_diagnostic-Stays env error code message m) v
  call-HasPairs (Other.tick env stats) m v = Stays-HasPairs (etw_tick-Stays env stats m) v
  call-HasPairs (Other.finish env stats) m v = Stays-HasPairs (finish_etw-Stays env stats m) v
  call-HasPairs (Other.poll env) m v = Stays-HasPairs (poll_child-Stays env m) v
  call-HasPairs (Other.exit_qpc qpc) m v = Stays-HasPairs (set_child_exit_qpc-Stays qpc m) v
  call-HasPairs (Other.exited code) m v = mark_child_exited-HasPairs code m v
  call-HasPairs (Other.process handle) m v = Stays-HasPairs (set_child_process-Stays handle m) v
  call-HasPairs (Other.running r) m v = Stays-HasPairs (set_etw_running-Stays r m) v
  call-HasPairs (Other.enable opened name path interval) m v = HasPairs-move refl refl refl v
  call-HasPairs (Other.disable reason) m v = HasPairs-move refl refl refl v

  -- No object is created with the id 0, which stands for none.
  abbrev pub HasRealIds : List (Turn d) → Type 0
  HasRealIds [] = Unit
  HasRealIds (Turn.event env hdr p bytes ∷ cs) =
      (hdr.kind ≡ EventKind.created → p.as_created.id ≢ 0) × HasRealIds cs
  HasRealIds (Turn.other c ∷ cs) = HasRealIds cs

  turns-HasPairs :
      (cs : List (Turn d)) (m : Model) → HasRealIds cs → HasPairs m → HasPairs (turns d cs m)
  unfolding turns turn
  turns-HasPairs [] m a v = v
  turns-HasPairs (Turn.event env hdr p bytes ∷ cs) m a v =
      turns-HasPairs cs _ a.1 (on_event-HasPairs env hdr p bytes m a.0 v)
  turns-HasPairs (Turn.other c ∷ cs) m a v = turns-HasPairs cs _ a (call-HasPairs c m v)

  -- However the calls of the pipe's reader, the ETW consumer and the main loop follow each other, with
  -- --etw or without, if no object is created with the id 0 and the join's tables agree in the sense of
  -- HasPairs at first: they agree at the end, the ETW object that a tracked object names as its partner
  -- is bound to that object, and no two tracked objects name the same one.
  pub turns-HasOwnPartners :
      (cs : List (Turn d)) (m : Model)
      → HasRealIds cs
      → HasPairs m
      → HasPairs (turns d cs m) × HasOwnPartners (turns d cs m)
  turns-HasOwnPartners cs m a v =
      let kept = turns-HasPairs cs m a v in (kept, HasPairs-HasOwnPartners (turns d cs m) kept)
