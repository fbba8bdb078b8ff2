-- ===== src/Model/Split.antt =====
-- The three location columns of the console table against its allocation columns.
use dx12track.Prelude.{ℕ, ◌+◌, ◌≡◌, refl, [], ◌∷◌, Map, sum_by, arith}
use dx12track.Events.{alloc_index}
use dx12track.Model.State.{LiveObject, Model, loc_index}
use dx12track.Model.Core.{core, cores}
use dx12track.Model.Totals.{HasTotals, cell_bytes}
use dx12track.Model.Locations.{HasLocs, loc_share}

-- One object adds the same to both sides.
share-split :
    (h : ℕ) (o : LiveObject)
    → loc_share h 0 o + loc_share h 1 o + loc_share h 2 o
      ≡ cell_bytes h 1 (core o)
        + cell_bytes h 2 (core o)
        + cell_bytes h 3 (core o)
        + cell_bytes h 4 (core o)
unfolding loc_index alloc_index
share-split h o = ground arith

shares-split :
    (h : ℕ) (live : Map LiveObject)
    → sum_by (loc_share h 0) live + sum_by (loc_share h 1) live + sum_by (loc_share h 2) live
      ≡ sum_by (cell_bytes h 1) (cores live)
        + sum_by (cell_bytes h 2) (cores live)
        + sum_by (cell_bytes h 3) (cores live)
        + sum_by (cell_bytes h 4) (cores live)
unfolding sum_by
shares-split h [] = refl
shares-split h ((k, o) ∷ live) = omega (arith, share-split h o, shares-split h live)

-- For each heap type, the bytes in VRAM, in system memory and of unknown location add up to the
-- bytes of its committed, placed and reserved resources and of its heaps, where the totals and the
-- bytes by location are right.
pub loc_bytes-split :
    (m : Model) (h : ℕ)
    → HasTotals m
    → HasLocs m
    → m.s.etw.loc_bytes h 0 + m.s.etw.loc_bytes h 1 + m.s.etw.loc_bytes h 2
      ≡ m.s.totals.bytes h 1 + m.s.totals.bytes h 2 + m.s.totals.bytes h 3 + m.s.totals.bytes h 4
loc_bytes-split m h t v = omega (
  arith,
  shares-split h m.live,
  v.shares h 0,
  v.shares h 1,
  v.shares h 2,
  t.bytes h 1,
  t.bytes h 2,
  t.bytes h 3,
  t.bytes h 4,
)
