-- ===== src/System/Screen.antt =====
-- The DLL's events, the ETW consumer and the main loop up to the console: the memory table of
-- src/launcher/Renderer.cpp.
use dx12track.Prelude.{ℕ, ◌+◌, ◌<◌, ◌≡◌, refl, arith, true, List, [], ◌∷◌, length, u64_mod}
use dx12track.Tracker.{Hooks, Call, Emitted, created, renamed, destroyed, run, empty_tracker}
use dx12track.Tracker.Heaps.{HasOtherHeaps, HeapsIssued, run-HasOtherHeaps}
use dx12track.Model.State.{Model, Env}
use dx12track.Model.Ingest.{Payload}
use dx12track.Model.Tick.{Double}
use dx12track.Model.Totals.{HasTotals}
use dx12track.Model.Turns.{Turn}
use dx12track.Model.Turns.Totals.{Admits, AdmitsAll}
use dx12track.Model.Turns.Locations.{stays_on, Traces, TracesAll}
use dx12track.Model.Locations.Events.{IsTracked}
use dx12track.Renderer.{memory_table, last_heap}
use dx12track.Renderer.Totals.{IsSummed}
use dx12track.Renderer.Turns.{turns-IsSummed}
use dx12track.System.Shared.{
  Step, share, arrived, arrival_turn, turns_of, share-eq-turns, shared-AdmitsAll,
}
use dx12track.System.Totals.{created_bytes}

module _ (d : Double) where
  -- DisableEtw is not among the calls.
  abbrev pub StaysOn : List (Step d) → Type 0
  StaysOn [] = Unit
  StaysOn (Step.arrives a e ∷ cs) = StaysOn cs
  StaysOn (Step.passes c ∷ cs) = (stays_on d (Turn.other c) ≡ true) × StaysOn cs

  arrival_turn-on : (a : Env × ℕ × Payload) (e : Emitted) → stays_on d (arrival_turn d a e) ≡ true
  arrival_turn-on a (created c) = refl
  arrival_turn-on a (renamed r) = refl
  arrival_turn-on a (destroyed x) = refl

  arrival_turn-Traces :
      (a : Env × ℕ × Payload) (e : Emitted) (m : Model)
      → Admits d (arrival_turn d a e) m
      → HasOtherHeaps (e ∷ [])
      → Traces d (arrival_turn d a e) m
  arrival_turn-Traces a (created c) m ok heaps = (ok, λ _. heaps.0)
  arrival_turn-Traces a (renamed r) m ok heaps = (ok, λ k. absurd (ground arith))
  arrival_turn-Traces a (destroyed x) m ok heaps = (ok, λ k. absurd (ground arith))

  HasOtherHeaps-split :
      (e : Emitted) (es : List Emitted)
      → HasOtherHeaps (e ∷ es)
      → HasOtherHeaps (e ∷ []) × HasOtherHeaps es
  HasOtherHeaps-split (created c) es h = ((h.0, tt), h.1)
  HasOtherHeaps-split (renamed r) es h = (tt, h)
  HasOtherHeaps-split (destroyed x) es h = (tt, h)

  turns_of-TracesAll :
      (cs : List (Step d)) (m : Model)
      → AdmitsAll d (turns_of d cs) m
      → HasOtherHeaps (arrived d cs)
      → StaysOn cs
      → TracesAll d (turns_of d cs) m
  turns_of-TracesAll [] m ok heaps on = tt
  turns_of-TracesAll (Step.arrives a e ∷ cs) m ok heaps on =
      let split = HasOtherHeaps-split e (arrived d cs) heaps in
      (
        arrival_turn-on a e,
        arrival_turn-Traces a e m ok.0 split.0,
        turns_of-TracesAll cs _ ok.1 split.1 on,
      )
  turns_of-TracesAll (Step.passes c ∷ cs) m ok heaps on =
      (on.0, tt, turns_of-TracesAll cs _ ok.1 heaps on.1)

  -- The events that the tracker emits over fewer than 2^64 - 1 calls from its empty state arrive in order,
  -- at any times, and between them the ETW consumer and the main loop make any calls but DisableEtw, at a
  -- launcher with --etw on that holds no object and whose tables are right. Then each column of the last
  -- line of the console's memory table is the bytes of the live objects of its allocation kind and of a
  -- known heap type, the line's total is their sum over the four kinds, and, with a running session,
  -- its location columns add up to it, if the bytes created stay below 2^64 altogether and the hooks
  -- name as an object's heap only ids that were handed out before.
  pub share-IsSummed :
      (hooks : Hooks) (slots : ℕ → ℕ → ℕ) (calls : List Call) (cs : List (Step d)) (m : Model)
      → arrived d cs ≡ (run hooks calls (empty_tracker slots)).sent
      → 1 + length calls < u64_mod
      → created_bytes (run hooks calls (empty_tracker slots)).sent < u64_mod
      → HeapsIssued hooks calls (empty_tracker slots)
      → m.etw_enabled ≡ true
      → StaysOn cs
      → m.live ≡ []
      → HasTotals m
      → IsTracked m
      → IsSummed (share d cs m) last_heap (memory_table (share d cs m).s)
  share-IsSummed hooks slots calls cs m order few room heaps enabled on empty v w =
      rw (share-eq-turns d cs m) (
        turns-IsSummed d (turns_of d cs) m enabled
          (turns_of-TracesAll cs m
            (shared-AdmitsAll d hooks slots calls cs m order few room empty v)
            (rw order (run-HasOtherHeaps hooks calls (empty_tracker slots) heaps tt)) on)
          v w)
