-- ===== src/Tests/System.antt =====
-- A run of the tracker and the launcher together.
use dx12track.Prelude.{add64, ℕ, ◌*◌, pos, ltb, List, [], ◌∷◌, refl, arith, put, find}
use dx12track.Events.{ObjectType, AllocationKind}
use dx12track.Tracker.{
  ObjectInfo, Call, Emitted, registers, releases, run, empty_tracker, step, register,
  patch_vtable_if_new, patch_new, patch_slot, emit_created, emit_destroyed, created_payload,
  on_release_to_zero,
}
use dx12track.Model.Totals.{HasTotals}
use dx12track.System.Screen.{share-IsSummed}
use dx12track.Renderer.{memory_table, last_heap}
use dx12track.Renderer.Totals.{IsSummed}
use dx12track.System.Shared.{Step, share, share-HasTotals}
use dx12track.Model.Tick.{Double}
use dx12track.Model.Turns.{Other}
use dx12track.Etw.{ObjType, Group, Stats}
use dx12track.Tests.{env, buffer_payload, with_sidecar, initial-HasTotals, initial-IsTracked}
use dx12track.Tests.Dll.{hooks, fence, slots}

abbrev texture : ObjectInfo
texture = record fence {
  type = ObjectType.resource;
  alloc = AllocationKind.committed;
  heap_type = 1;
  size_bytes = 65_536;
}

-- The same address is reported twice before it is released.
abbrev calls : List Call
calls = registers 0x1000 texture ∷ registers 0x1000 texture ∷ releases 0x1000 ∷ []

-- Doubles as numbers.
abbrev double : Double
double = record {
  F64 = ℕ;
  times_million = λ x. x * 1_000_000;
  is_positive = λ x. ltb 0 x;
  round_to_u64 = λ x. x;
}

abbrev no_stats : Stats
no_stats = record {
  events = 0;
  events_lost = 0;
  buffers_lost = 0;
  exceptions = 0;
  rundowns = 0;
  rundown_failures = 0;
}

abbrev from_etw : List (Other double)
from_etw =
    Other.object_created (pos 10) 7 ObjType.resource 65_536 Group.local
    ∷ Other.object_address env 7 0x1000
    ∷ Other.tick env no_stats
    ∷ []

abbrev passing : List (Other double) → List (Step double) → List (Step double)
passing [] cs = cs
passing (o ∷ os) cs = Step.passes o ∷ passing os cs

-- Each event of the tracker, and then the calls of other threads.
abbrev among : List Emitted → List (Step double)
among [] = []
among (e ∷ es) = Step.arrives (env, 5, buffer_payload) e ∷ passing from_etw (among es)

abbrev steps : List (Step double)
steps = among (run hooks calls (empty_tracker slots)).sent

share-HasTotals_example : HasTotals (share double steps with_sidecar)
unfolding run step register patch_vtable_if_new patch_new patch_slot emit_created emit_destroyed
    created_payload on_release_to_zero put find
share-HasTotals_example =
    share-HasTotals double hooks slots calls steps with_sidecar refl (omega arith) (omega arith)
      refl initial-HasTotals

share-IsSummed_example :
    IsSummed
      (share double steps with_sidecar)
      last_heap
      (memory_table (share double steps with_sidecar).s)
unfolding run step register patch_vtable_if_new patch_new patch_slot emit_created emit_destroyed
    created_payload on_release_to_zero put find add64
share-IsSummed_example =
    share-IsSummed double hooks slots calls steps with_sidecar refl (omega arith) (omega arith)
      (omega arith, (omega arith, tt)) refl
      (refl, (refl, (refl, (refl, (refl, (refl, (refl, (refl, (refl, tt))))))))) refl
      initial-HasTotals initial-IsTracked
