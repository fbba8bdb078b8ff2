-- ===== src/Renderer.antt =====
-- The console renderer (src/launcher/Renderer.cpp): the memory table, the screen's cells, the window of the
-- recent activity and the dumped frame. The texts that swprintf makes of numbers are not modelled. Screen
-- positions are numbers without a sign, as all callers pass.
pub mod Totals
pub mod Turns
pub mod Screen
use dx12track.Prelude.{
  ℕ, zero, suc, ◌+◌, ◌-◌, ◌*◌, ◌/◌, ◌%◌, Bool, true, false, not, ◌&&◌, ◌||◌, List, [], ◌∷◌, ◌++◌,
  Option, none, some, length, leb, ltb, ◌==◌, if◌then◌else◌, add64, sub64,
}
use dx12track.Wide.{Wide}
use dx12track.Etw.{CounterKind}
use dx12track.Model.State.{MemoryTotals, EtwSnapshot, Snapshot}

abbrev is_nil : Wide → Bool
is_nil [] = true
is_nil (c ∷ s) = false

-- EtwOn
unfoldable pub etw_on : Snapshot → Bool
etw_on s = s.etw.enabled && is_nil s.etw.status

-- The sums of the memory table's columns, of its location columns and of its rows, and the heap types that
-- have a row.
pub record Table : Type 0 where
  pub columns : ℕ → ℕ
  pub locs : ℕ → ℕ
  pub grand : ℕ
  pub rows : List ℕ

abbrev pub empty_table : Table
empty_table = record { columns = λ a. 0; locs = λ l. 0; grand = 0; rows = [] }

unfoldable pub row_total : MemoryTotals → ℕ → ℕ
row_total t h = add64 (add64 (add64 (t.bytes h 4) (t.bytes h 1)) (t.bytes h 2)) (t.bytes h 3)

abbrev pub is_column : ℕ → Bool
is_column a = leb 1 a && leb a 4

abbrev pub is_location : ℕ → Bool
is_location l = ltb l 3

unfoldable pub add_row : Snapshot → ℕ → Table → Table
unfolding row_total etw_on
add_row s h t = if row_total s.totals h == 0 then t else record {
  columns = λ a. if is_column a then add64 (t.columns a) (s.totals.bytes h a) else t.columns a;
  locs =
      λ l. if etw_on s && is_location l then add64 (t.locs l) (s.etw.loc_bytes h l) else t.locs l;
  grand = add64 t.grand (row_total s.totals h);
  rows = t.rows ++ h ∷ [];
}

-- The rows of the heap types from 1 on.
unfoldable pub add_rows : Snapshot → ℕ → Table
unfolding add_row
add_rows s zero = empty_table
add_rows s (suc h) = add_row s (suc h) (add_rows s h)

abbrev pub last_heap : ℕ
last_heap = 5

unfoldable pub memory_table : Snapshot → Table
unfolding add_rows
memory_table s = add_rows s last_heap
