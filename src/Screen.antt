-- ===== src/Screen.antt =====
-- scrn.c: the text console. `mem` holds the sixteen-bit cells of the video memory, counted from
-- `textmemptr`; `ports` is the list of the bytes sent to the video controller, newest first.
pub mod Bounds
pub mod Terminal
use eg_gs.Base.{
  ℕ, ◌+◌, ◌-◌, ◌*◌, ◌/◌, ◌%◌, ◌^◌, bit_and, bit_or, Bool, List, [], ◌∷◌, Ram, memcpy, memset,
  update, leb, ◌==◌, if◌then◌else◌,
}

pub record Screen : Type 0 where
  pub mem : Ram ℕ
  pub attrib : ℕ
  pub csr_x : ℕ
  pub csr_y : ℕ
  pub ports : List (ℕ × ℕ)

abbrev pub columns : ℕ
columns = 80

abbrev pub rows : ℕ
rows = 25

-- A value stored through an `unsigned short *`.
abbrev pub short : ℕ → ℕ
short n = n % 2 ^ 16

-- `0x20 | (attrib << 8)`, as a cell.
abbrev pub blank_of : ℕ → ℕ
blank_of attrib = short (bit_or 0x20 (attrib * 2 ^ 8))

unfoldable pub blank : Screen → ℕ
blank s = blank_of s.attrib

-- `outb(value, port)`: the low byte goes out.
abbrev pub outb : ℕ → ℕ → Screen → Screen
outb value port s = record s { ports = (value % 2 ^ 8, port) ∷ s.ports }

-- The screen's rows moved up by `temp`, and one blank row below them. The byte counts of `memcpy`
-- are twice these counts of cells.
unfoldable pub scroll_up : Ram ℕ → ℕ → ℕ → Ram ℕ
scroll_up m b temp =
    let left = (rows + 2 ^ 32 - temp) % 2 ^ 32 in
    memset (memcpy m 0 (temp * columns) (left * columns)) (left * columns) b columns

unfoldable pub scroll : Screen → Screen
unfolding blank
scroll s =
    if leb rows s.csr_y
    then record s { mem = scroll_up s.mem (blank s) (s.csr_y - rows + 1); csr_y = rows - 1 }
    else s

unfoldable pub move_csr : Screen → Screen
move_csr s =
    let temp = s.csr_y * columns + s.csr_x in
    outb temp 0x3D5 (outb 15 0x3D4 (outb (temp / 2 ^ 8) 0x3D5 (outb 14 0x3D4 s)))

clear_rows : Ram ℕ → ℕ → ℕ → ℕ → Ram ℕ
clear_rows m b i ℕ.zero = m
clear_rows m b i (ℕ.suc n) = clear_rows (memset m (i * columns) b columns) b (i + 1) n

unfoldable pub cls : Screen → Screen
unfolding clear_rows move_csr blank
cls s = move_csr (record s { mem = clear_rows s.mem (blank s) 0 rows; csr_x = 0; csr_y = 0 })

-- The cell that a character makes: `c | att`.
abbrev pub cell : ℕ → ℕ → ℕ
cell c attrib = short (bit_or c (attrib * 2 ^ 8))

-- The branches on the character, before the cursor is brought back onto the screen.
unfoldable pub place : Screen → ℕ → Screen
place s c =
    if c == 0x08
    then (if s.csr_x == 0 then s else record s { csr_x = s.csr_x - 1 })
    else if c == 0x09
    then record s { csr_x = bit_and (s.csr_x + 8) (2 ^ 32 - 8) }
    else if c == b'\r'
    then record s { csr_x = 0 }
    else if c == b'\n'
    then record s { csr_x = 0; csr_y = s.csr_y + 1 }
    else if leb 0x20 c
    then record s {
      mem = update s.mem (s.csr_y * columns + s.csr_x) (cell c s.attrib);
      csr_x = s.csr_x + 1;
    }
    else s

unfoldable pub wrap : Screen → Screen
wrap s = if leb columns s.csr_x then record s { csr_x = 0; csr_y = s.csr_y + 1 } else s

unfoldable pub putch : Screen → ℕ → Screen
unfolding place wrap scroll move_csr
putch s c = move_csr (scroll (wrap (place s c)))

-- `puts` stops before the terminating zero, which the list does not hold.
unfoldable pub puts : Screen → List ℕ → Screen
puts s [] = s
puts s (c ∷ text) = puts (putch s c) text

-- `TO_HEX`.
abbrev pub to_hex : ℕ → ℕ
to_hex i = if leb i 9 then b'0' + i else b'A' - 10 + i

-- The digit that `(d & mask) >> shift` picks out.
abbrev pub nibble : ℕ → ℕ → ℕ
nibble d shift = bit_and d (0xF * 2 ^ shift) / 2 ^ shift

unfoldable pub putx : Screen → ℕ → Screen
putx s d =
    let s = putch s (to_hex (nibble d 28)) in
    let s = putch s (to_hex (nibble d 24)) in
    let s = putch s (to_hex (nibble d 20)) in
    let s = putch s (to_hex (nibble d 16)) in
    let s = putch s (to_hex (nibble d 12)) in
    let s = putch s (to_hex (nibble d 8)) in
    let s = putch s (to_hex (nibble d 4)) in putch s (to_hex (nibble d 0))

unfoldable pub settextcolor : Screen → ℕ → ℕ → Screen
settextcolor s forecolor backcolor = record s {
  attrib = bit_or (backcolor * 2 ^ 4) (bit_and forecolor 0x0F);
}

-- `init_video` sets the base of the memory, which is where the cells are counted from.
unfoldable pub init_video : Screen → Screen
unfolding cls
init_video s = cls s
