-- ===== src/Renderer/Screen.antt =====
-- The renderer's cells (Resize, Clear and Put of src/launcher/Renderer.cpp), and which lines of the recent
-- activity Render puts on them.
use native.Mathlib.Nat.{mul-le-mul_right}
use dx12track.Prelude.{
  ℤ, pos, negsuc, Bool, zero, suc, ◌∙◌, ℕ, ◌+◌, ◌-◌, ◌*◌, ◌≤◌, ◌<◌, ◌≡◌, ◌≢◌, refl, true, false,
  ◌&&◌, [], ◌∷◌, Option, none, some, ◌⊎◌, Bool-cases, inl, inr, arith, leb, ltb, ◌==◌,
  if◌then◌else◌,
}
use dx12track.Wide.{Wide}

-- A unit and its attributes.
abbrev pub Cell : Type 0
Cell = ℕ × ℕ

-- The cell of column x and row y is at y * cols + x; the buffer has cols * rows of them.
pub record Screen : Type 0 where
  pub cols : ℕ
  pub rows : ℕ
  pub buffer : ℕ → Cell

abbrev pub cleared : ℕ → ℕ → Cell
cleared attr i = (32, attr)

unfoldable pub resize : ℕ → ℕ → Screen → Screen
resize cols rows s = record { cols = cols; rows = rows; buffer = cleared 7 }

abbrev set_cell : ℕ → Cell → (ℕ → Cell) → ℕ → Cell
set_cell at cell cells i = if i == at then cell else cells i

-- The units of a text from a column on, in the row that starts at `base`; units left of the screen are
-- passed over. A SHORT is an integer; the column stays below 2^15, since the screen's width does.
unfoldable pub put_units : ℕ → ℕ → ℤ → Wide → ℕ → (ℕ → Cell) → ℕ → Cell
put_units cols base col [] attr cells = cells
put_units cols base (negsuc zero) (c ∷ s) attr cells = put_units cols base (pos 0) s attr cells
put_units cols base (negsuc (suc n)) (c ∷ s) attr cells =
    put_units cols base (negsuc n) s attr cells
put_units cols base (pos col) (c ∷ s) attr cells =
    let rest = put_units cols base (pos (col + 1)) s attr (set_cell (base + col) (c, attr) cells) in
    if ltb col cols then rest else cells

unfoldable pub put : ℤ → ℤ → Wide → ℕ → Screen → Screen
unfolding put_units
put x (negsuc n) s attr screen = screen
put x (pos y) s attr screen =
    if leb screen.rows y
    then screen
    else record screen { buffer = put_units screen.cols (y * screen.cols) x s attr screen.buffer }

abbrev pub unit_at : Wide → ℕ → Option ℕ
unit_at [] i = none
unit_at (c ∷ s) i = if i == 0 then some c else unit_at s (i - 1)

-- What a cell shows where a text is over it.
abbrev pub shown : Option ℕ → ℕ → Cell → Cell
shown none attr cell = cell
shown (some c) attr cell = (c, attr)

put_units_at :
    (cols base col : ℕ) (s : Wide) (attr : ℕ) (cells : ℕ → Cell) (i : ℕ)
    → put_units cols base (pos col) s attr cells i ≡ (
        if leb (base + col) i && ltb i (base + cols)
        then shown (unit_at s (i - (base + col))) attr (cells i)
        else cells i)
unfolding put_units
put_units_at cols base col [] attr cells i = ground arith
put_units_at cols base col (c ∷ s) attr cells i =
    let after : i - (base + (col + 1)) ≡ i - (base + col) - 1 = omega arith in
    let later = put_units_at cols base (col + 1) s attr (set_cell (base + col) (c, attr) cells) i in
    ground (arith, rw after at later)

-- The unit of a text from column x on that is over column px.
abbrev pub over : ℤ → Wide → ℕ → Option ℕ
over (pos x) s px = if leb x px then unit_at s (px - x) else none
over (negsuc n) s px = unit_at s (px + (n + 1))

-- In a row, a text shows at each column the unit that is over it.
put_in_row :
    (cols base : ℕ) (x : ℤ) (s : Wide) (attr : ℕ) (cells : ℕ → Cell) (px : ℕ)
    → px < cols
    → put_units cols base x s attr cells (base + px) ≡ shown (over x s px) attr (cells (base + px))
unfolding put_units
put_in_row cols base (pos x) s attr cells px h =
    let column : base + px - (base + x) ≡ px - x = omega arith in
    let at = put_units_at cols base x s attr cells (base + px) in ground (arith, rw column at at)
put_in_row cols base (negsuc n) [] attr cells px h = refl
put_in_row cols base (negsuc zero) (c ∷ s) attr cells px h =
    let next : px + (0 + 1) - 1 ≡ px - 0 = omega arith in
    put_in_row cols base (pos 0) s attr cells px h ∙ ground (arith, next)
put_in_row cols base (negsuc (suc n)) (c ∷ s) attr cells px h =
    let next : px + (suc n + 1) - 1 ≡ px + (n + 1) = omega arith in
    put_in_row cols base (negsuc n) s attr cells px h ∙ ground (arith, next)

-- Outside of its row a text shows nothing.
put_elsewhere :
    (cols base : ℕ) (x : ℤ) (s : Wide) (attr : ℕ) (cells : ℕ → Cell) (i : ℕ)
    → (i < base) ⊎ (base + cols ≤ i)
    → put_units cols base x s attr cells i ≡ cells i
unfolding put_units
put_elsewhere cols base (pos x) s attr cells i h =
    ground (arith, put_units_at cols base x s attr cells i)
put_elsewhere cols base (negsuc n) [] attr cells i h = refl
put_elsewhere cols base (negsuc zero) (c ∷ s) attr cells i h =
    put_elsewhere cols base (pos 0) s attr cells i h
put_elsewhere cols base (negsuc (suc n)) (c ∷ s) attr cells i h =
    put_elsewhere cols base (negsuc n) s attr cells i h

abbrev pub cell_at : Screen → ℕ → ℕ → Cell
cell_at screen x y = screen.buffer (y * screen.cols + x)

-- Two rows have no cell in common.
rows_apart :
    (cols px py y : ℕ)
    → px < cols
    → py ≢ y
    → (py * cols + px < y * cols) ⊎ (y * cols + cols ≤ py * cols + px)
rows_apart cols px py y h other =
    let order : (py < y) ⊎ (y < py) = ground arith in
    elim order [
      | inl below ↦ inl (omega (arith, mul-le-mul_right cols below))
      | inr above ↦ inr (omega (arith, mul-le-mul_right cols above))
    ]

-- A row of the screen.
abbrev pub is_row : ℤ → ℕ → Screen → Bool
is_row (pos y) py screen = ltb y screen.rows && py == y
is_row (negsuc n) py screen = false

-- What Put leaves in a cell of the screen, and behind the buffer.
abbrev pub IsPut : ℤ → ℤ → Wide → ℕ → Screen → Screen → Type 0
IsPut x y s attr before after =
    ((px py : ℕ)
      → px < before.cols
      → cell_at after px py ≡ (
          if is_row y py before
          then shown (over x s px) attr (cell_at before px py)
          else cell_at before px py))
    × ((i : ℕ) → before.rows * before.cols ≤ i → after.buffer i ≡ before.buffer i)

put_cell :
    (cols y : ℕ) (x : ℤ) (s : Wide) (attr : ℕ) (cells : ℕ → Cell) (px py : ℕ)
    → px < cols
    → put_units cols (y * cols) x s attr cells (py * cols + px) ≡ (
        if py == y
        then shown (over x s px) attr (cells (py * cols + px))
        else cells (py * cols + px))
put_cell cols y x s attr cells px py h = elim (Bool-cases (py == y)) [
  | inl same ↦
      let e : py ≡ y = ground arith in
      rw same (rw e (put_in_row cols (y * cols) x s attr cells px h))
  | inr other ↦
      let apart = rows_apart cols px py y h (ground arith) in
      rw other (put_elsewhere cols (y * cols) x s attr cells (py * cols + px) apart)
]

below_rows : (screen : Screen) (y : ℕ) → leb screen.rows y ≡ false → y + 1 ≤ screen.rows
below_rows screen y h = ground arith

-- A text is put on the cells of its row from its column on, as far as the row goes, if the screen has the
-- row; of a text that begins left of the screen, the units that fall on the screen are. No other cell
-- is changed, and nothing behind the buffer is written.
pub put-IsPut :
    (x y : ℤ) (s : Wide) (attr : ℕ) (screen : Screen)
    → IsPut x y s attr screen (put x y s attr screen)
unfolding put
put-IsPut x (negsuc n) s attr screen = (λ px py h. refl, λ i h. refl)
put-IsPut x (pos y) s attr screen = elim (Bool-cases (leb screen.rows y)) [
  | inl off ↦
      let outside : ltb y screen.rows ≡ false = ground arith in
      rw off (λ px py h. rw outside refl, λ i h. refl)
  | inr on ↦
      let inside : ltb y screen.rows ≡ true = ground arith in
      rw on (
        λ px py h. rw inside (put_cell screen.cols y x s attr screen.buffer px py h),
        λ i h.
            put_elsewhere screen.cols (y * screen.cols) x s attr screen.buffer i
              (inr (omega (arith, mul-le-mul_right screen.cols (below_rows screen y on)))),
      )
]
