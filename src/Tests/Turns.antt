-- ===== src/Tests/Turns.antt =====
-- The calls of the launcher's threads at concrete inputs.
use dx12track.Prelude.{ℕ, refl, List, [], ◌∷◌, find, sum_by, arith, ltb, pos}
use dx12track.Model.Tick.{Double}
use dx12track.Model.Totals.{HasTotals}
use dx12track.Model.Turns.{Turn, Other, turns}
use dx12track.Model.Turns.Totals.{turns-HasTotals}
use dx12track.Model.Turns.Locations.{turns-IsTracked}
use dx12track.Model.Turns.Pairs.{HasOwnPartners, turns-HasOwnPartners}
use dx12track.Model.Pairs.{HasPairs}
use dx12track.Model.Locations.Events.{IsTracked}
use dx12track.Tests.{
  env, buffer_payload, created_header, with_sidecar, initial-HasTotals, initial-IsTracked,
}

-- Megabytes without fractions.
abbrev whole_numbers : Double
whole_numbers = record {
  F64 = ℕ;
  times_million = λ v. v;
  is_positive = λ v. ltb 0 v;
  round_to_u64 = λ v. v;
}

-- An object comes over the pipe, the target is polled, and the ETW consumer hears of its end.
abbrev calls : List (Turn whole_numbers)
calls =
    Turn.event env created_header buffer_payload 832
    ∷ Turn.other (Other.poll env)
    ∷ Turn.other (Other.object_destroyed (pos 4) 9)
    ∷ []

turns-HasTotals_example : HasTotals (turns whole_numbers calls with_sidecar)
unfolding find sum_by
turns-HasTotals_example =
    turns-HasTotals whole_numbers calls with_sidecar
      ((λ _ _. record { fresh = refl; room = omega arith; few = omega arith }), (tt, (tt, tt)))
      initial-HasTotals

turns-IsTracked_example :
    HasTotals (turns whole_numbers calls with_sidecar)
    × IsTracked (turns whole_numbers calls with_sidecar)
unfolding find sum_by
turns-IsTracked_example =
    turns-IsTracked whole_numbers calls with_sidecar refl
      (
        refl,
        ((λ _ _. record { fresh = refl; room = omega arith; few = omega arith }), λ _. omega arith),
        (refl, tt, (refl, tt, tt)),
      )
      initial-HasTotals initial-IsTracked

initial-HasPairs : HasPairs with_sidecar
unfolding find
initial-HasPairs = record {
  paired = record {
    agrees = λ id ne. absurd (ne refl);
    zero_key = refl;
    unaddressed = λ k e. refl;
    addressed = λ a k e. cc;
    distinct = tt;
  };
  absent = refl;
  distinct = tt;
  keyed = (tt, λ k c e. cc);
}

turns-HasOwnPartners_example :
    HasPairs (turns whole_numbers calls with_sidecar)
    × HasOwnPartners (turns whole_numbers calls with_sidecar)
turns-HasOwnPartners_example =
    turns-HasOwnPartners whole_numbers calls with_sidecar ((λ _. omega arith), tt) initial-HasPairs
