-- ===== src/Renderer/Turns.antt =====
-- The console's memory table (src/launcher/Renderer.cpp) over the calls of all threads on the model
-- (src/launcher/Model.h).
use dx12track.Prelude.{◌≡◌, true, List}
use dx12track.Model.State.{Model}
use dx12track.Model.Tick.{Double}
use dx12track.Model.Turns.{Turn, turns}
use dx12track.Model.Turns.Locations.{TracesAll, turns-IsTracked}
use dx12track.Model.Totals.{HasTotals}
use dx12track.Model.Locations.Events.{IsTracked}
use dx12track.Renderer.{memory_table, last_heap}
use dx12track.Renderer.Totals.{IsSummed, memory_table-IsSummed}

-- With --etw on and never turned off, whatever calls of the pipe's reader, the ETW consumer and the main
-- loop come before a frame, each column of the table's last line is the bytes of the live objects of
-- its allocation kind and of a known heap type, the line's total is the sum of these over the four
-- kinds, and, with a running session, its three location columns add up to it. Each whole `Created`
-- event must bring an id that is not live then, is not its own heap's, and leaves the sum of sizes
-- below 2^64.
pub turns-IsSummed :
    (d : Double) (cs : List (Turn d)) (m : Model)
    → m.etw_enabled ≡ true
    → TracesAll d cs m
    → HasTotals m
    → IsTracked m
    → IsSummed (turns d cs m) last_heap (memory_table (turns d cs m).s)
turns-IsSummed d cs m on a t v =
    let kept = turns-IsTracked d cs m on a t v in
    memory_table-IsSummed (turns d cs m) (kept.0) (kept.1.locs)
