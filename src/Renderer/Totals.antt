-- ===== src/Renderer/Totals.antt =====
-- The totals of the console's memory table against the live objects (src/launcher/Renderer.cpp).
use dx12track.Prelude.{
  ℕ, zero, suc, ◌+◌, ◌<◌, ◌≡◌, refl, sym, ◌∙◌, ◌⊎◌, inl, inr, Bool-cases, true, ◌&&◌, [], ◌∷◌, Map,
  sum_by, sum_by_mono, arith, leb, ◌==◌, if◌then◌else◌, u64_mod, add64, add64_exact,
}
use dx12track.Events.{alloc_index}
use dx12track.Model.State.{Model, heap_bucket}
use dx12track.Model.Core.{Core, cores}
use dx12track.Model.Totals.{HasTotals, cell_bytes, size_of}
use dx12track.Model.Locations.{HasLocs}
use dx12track.Model.Split.{loc_bytes-split}
use dx12track.Renderer.{
  Table, empty_table, row_total, is_column, etw_on, add_row, add_rows, memory_table, last_heap,
}

sum_by-add :
    (v w x : Core → ℕ) (objs : Map Core)
    → ((c : Core) → v c + w c ≡ x c)
    → sum_by v objs + sum_by w objs ≡ sum_by x objs
unfolding sum_by
sum_by-add v w x [] h = omega arith
sum_by-add v w x ((k, c) ∷ objs) h = omega (arith, h c, sum_by-add v w x objs h)

sum_by_zero : (w : Core → ℕ) (objs : Map Core) → ((c : Core) → w c ≡ 0) → sum_by w objs ≡ 0
unfolding sum_by
sum_by_zero w [] h = refl
sum_by_zero w ((k, c) ∷ objs) h = omega (arith, h c, sum_by_zero w objs h)

-- The bytes of an object of an allocation kind in the rows up to a heap type, and over all kinds.
abbrev pub up_to : ℕ → ℕ → Core → ℕ
up_to n a c =
    if leb 1 (heap_bucket c.heap_type) && leb (heap_bucket c.heap_type) n
    then (if alloc_index c.alloc == a then c.size_bytes else 0)
    else 0

abbrev pub all_up_to : ℕ → Core → ℕ
all_up_to n c = up_to n 1 c + up_to n 2 c + up_to n 3 c + up_to n 4 c

-- The table up to a heap type.
pub record IsSummed (m : Model) (n : ℕ) (t : Table) : Type 0 where
  pub columns : (a : ℕ) → is_column a ≡ true → t.columns a ≡ sum_by (up_to n a) (cores m.live)
  pub grand : t.grand ≡ sum_by (all_up_to n) (cores m.live)
  pub locs : etw_on m.s ≡ true → t.locs 0 + t.locs 1 + t.locs 2 ≡ t.grand

column_cases : (a : ℕ) → is_column a ≡ true → (a ≡ 1) ⊎ ((a ≡ 2) ⊎ ((a ≡ 3) ⊎ (a ≡ 4)))
column_cases a h = ground arith

module _ (m : Model) (totals : HasTotals m) where
  column_next :
      (n a : ℕ)
      → sum_by (up_to n a) (cores m.live) + m.s.totals.bytes (suc n) a
        ≡ sum_by (up_to (suc n) a) (cores m.live)
  column_next n a = rw (totals.bytes (suc n) a) (
      sum_by-add (up_to n a) (cell_bytes (suc n) a) (up_to (suc n) a) (cores m.live)
        (λ c. ground arith))

  all_fits : (n : ℕ) → sum_by (all_up_to n) (cores m.live) < u64_mod
  all_fits n =
      omega
        (arith, totals.fits, sum_by_mono (all_up_to n) size_of (cores m.live) (λ c. ground arith))

  -- The bytes of a row in the order of the columns.
  row_sum :
      (h : ℕ) (objs : Map Core)
      → sum_by (λ c. cell_bytes h 1 c + cell_bytes h 2 c + cell_bytes h 3 c + cell_bytes h 4 c) objs
        ≡ sum_by (cell_bytes h 1) objs
          + sum_by (cell_bytes h 2) objs
          + sum_by (cell_bytes h 3) objs
          + sum_by (cell_bytes h 4) objs
  unfolding sum_by
  row_sum h [] = refl
  row_sum h ((k, c) ∷ objs) = omega (arith, row_sum h objs)

  all_next :
      (n : ℕ)
      → sum_by (all_up_to n) (cores m.live)
          + (m.s.totals.bytes (suc n) 1
              + m.s.totals.bytes (suc n) 2
              + m.s.totals.bytes (suc n) 3
              + m.s.totals.bytes (suc n) 4)
        ≡ sum_by (all_up_to (suc n)) (cores m.live)
  all_next n =
      rw
        (
          totals.bytes (suc n) 1,
          totals.bytes (suc n) 2,
          totals.bytes (suc n) 3,
          totals.bytes (suc n) 4,
        )
        (rw (sym (row_sum (suc n) (cores m.live)))
          (sum_by-add (all_up_to n) _ (all_up_to (suc n)) (cores m.live) (λ c. ground arith)))

  row_total_exact :
      (n : ℕ)
      → row_total m.s.totals (suc n)
        ≡ m.s.totals.bytes (suc n) 1
          + m.s.totals.bytes (suc n) 2
          + m.s.totals.bytes (suc n) 3
          + m.s.totals.bytes (suc n) 4
  unfolding row_total add64
  row_total_exact n = omega (arith, all_next n, all_fits (suc n))

  column_fits : (n a : ℕ) → sum_by (up_to n a) (cores m.live) < u64_mod
  column_fits n a =
      omega (arith, totals.fits, sum_by_mono (up_to n a) size_of (cores m.live) (λ c. ground arith))

  empty_row :
      (n a : ℕ)
      → is_column a ≡ true
      → row_total m.s.totals (suc n) ≡ 0
      → m.s.totals.bytes (suc n) a ≡ 0
  empty_row n a column e = elim (column_cases a column) [
    | inl one ↦ rw one (omega (arith, row_total_exact n, e))
    | inr (inl two) ↦ rw two (omega (arith, row_total_exact n, e))
    | inr (inr (inl three)) ↦ rw three (omega (arith, row_total_exact n, e))
    | inr (inr (inr four)) ↦ rw four (omega (arith, row_total_exact n, e))
  ]

  empty_table-IsSummed : IsSummed m 0 empty_table
  empty_table-IsSummed = record {
    columns = λ a column. sym (sum_by_zero (up_to 0 a) (cores m.live) (λ c. ground arith));
    grand = sym (sum_by_zero (all_up_to 0) (cores m.live) (λ c. ground arith));
    locs = λ on. refl;
  }

  add_row-IsSummed :
      (n : ℕ) (t : Table) → HasLocs m → IsSummed m n t → IsSummed m (suc n) (add_row m.s (suc n) t)
  unfolding add_row
  add_row-IsSummed n t located h = elim (Bool-cases (row_total m.s.totals (suc n) == 0)) [
    | inl none ↦
        let zero_row : row_total m.s.totals (suc n) ≡ 0 = ground arith in
        rw none (record {
          columns = λ a column.
              omega (arith, h.columns a column, column_next n a, empty_row n a column zero_row);
          grand = omega (arith, h.grand, all_next n, row_total_exact n, zero_row);
          locs = h.locs;
        })
    | inr some ↦ rw some (record {
      columns = λ a column. rw column (
          add64_exact (t.columns a) (m.s.totals.bytes (suc n) a)
            (omega (arith, h.columns a column, column_next n a, column_fits (suc n) a))
          ∙ omega (arith, h.columns a column, column_next n a));
      grand =
          add64_exact t.grand (row_total m.s.totals (suc n))
            (omega (arith, h.grand, all_next n, row_total_exact n, all_fits (suc n)))
          ∙ omega (arith, h.grand, all_next n, row_total_exact n);
      locs = λ on. rw on (
          let split = loc_bytes-split m (suc n) totals located in
          let fits = all_fits (suc n) in
          unfold add64 in
          omega (arith, split, fits, h.locs on, h.grand, all_next n, row_total_exact n));
    })
  ]

  add_rows-IsSummed : (n : ℕ) → HasLocs m → IsSummed m n (add_rows m.s n)
  unfolding add_rows
  add_rows-IsSummed zero located = empty_table-IsSummed
  add_rows-IsSummed (suc n) located =
      add_row-IsSummed n (add_rows m.s n) located (add_rows-IsSummed n located)

-- Where the model's totals and its bytes by location are right: each column of the table's last line is the
-- bytes of the live objects of its allocation kind and of a known heap type, the line's total is the sum
-- of these over the four kinds, and, with a running session, its three location columns add up to it.
pub memory_table-IsSummed :
    (m : Model) (totals : HasTotals m) → HasLocs m → IsSummed m last_heap (memory_table m.s)
unfolding memory_table
memory_table-IsSummed m totals located = add_rows-IsSummed m totals last_heap located
