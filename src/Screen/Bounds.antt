-- ===== src/Screen/Bounds.antt =====
-- The cursor of scrn.c stays on the screen, and nothing outside the screen's cells is written.
use eg_gs.Base.{
  ℕ, ◌+◌, ◌*◌, ◌≤◌, ◌<◌, ◌≡◌, refl, inl, inr, Bool-cases, leb, ltb, if◌then◌else◌, Ram, arith,
  bit_and, ◌-◌, ◌^◌, ◌%◌, memset_lem, memcpy_lem, memcpy, eq_of_table, holds_below,
}
use eg_gs.Screen.{Screen, columns, rows, place, wrap, scroll, scroll_up, putch, blank}

pub record OnScreen (s : Screen) : Type 0 where
  pub column : s.csr_x < columns
  pub row : s.csr_y < rows

-- The tab stop, on a line of the screen.
pub tab_stop : (x : ℕ) → x < columns → bit_and (x + 8) (2 ^ 32 - 8) ≡ x + 8 - x % 8
tab_stop x h =
    eq_of_table columns (λ x. bit_and (x + 8) (2 ^ 32 - 8)) (λ x. x + 8 - x % 8)
      (unfold holds_below in refl) x h

-- `putch` leaves the cursor on the screen.
pub putch-OnScreen : (s : Screen) (c : ℕ) → OnScreen s → OnScreen (putch s c)
unfolding putch
putch-OnScreen s c v = ground (arith, tab_stop s.csr_x)

scroll_up_lem :
    (m : Ram ℕ) (b i : ℕ)
    → scroll_up m b 1 i ≡ (
        if ltb i (24 * columns) then m (i + columns) else if ltb i (rows * columns) then b else m i)
unfolding scroll_up
scroll_up_lem m b i = ground (
  arith,
  memset_lem (memcpy m 0 columns (24 * columns)) (24 * columns) b columns i,
  memcpy_lem m 0 columns (24 * columns) i,
)

-- What is on the screen after the scrolling step, which is at most one row down.
pub scroll-mem :
    (s : Screen) (i : ℕ)
    → s.csr_y ≤ rows
    → (scroll s).mem i ≡ (
        if leb rows s.csr_y
        then (if ltb i (24 * columns)
            then s.mem (i + columns)
            else if ltb i (rows * columns)
            then blank s
            else s.mem i)
        else s.mem i)
unfolding scroll
scroll-mem s i h = elim (Bool-cases (leb rows s.csr_y)) [
  | inl e ↦
      let one : s.csr_y - rows + 1 ≡ 1 = ground arith in
      rw (e, one) (scroll_up_lem s.mem (blank s) i)
  | inr e ↦ rw e
]

-- With the cursor on the screen, `putch` writes no cell outside the screen.
pub putch_outside :
    (s : Screen) (c i : ℕ) → OnScreen s → rows * columns ≤ i → (putch s c).mem i ≡ s.mem i
unfolding putch
putch_outside s c i v h = ground (arith, tab_stop s.csr_x, scroll-mem (wrap (place s c)) i)
