-- ===== src/Super/Take.antt =====
-- Setting and clearing one bit of a map that lies in several blocks.
use eg_gs.Base.{ℕ, ◌+◌, ◌*◌, ◌/◌, ◌%◌, ◌<◌, ◌≡◌, ◌≢◌, ◌∙◌, false, Ram, arith, ◌==◌, if◌then◌else◌}
use eg_gs.Kernel.{Kernel, Ptr, null, BufferHead}
use eg_gs.Kernel.Result.{ok, with_buffer}
use eg_gs.Super.{Scan, take_bit}
use eg_gs.Super.Bitmap.{bit_at, block_bits, set_bit, clear_bit}
use eg_gs.Super.Bitmap.Laws.{bit_at-set_bit, bit_at-clear_bit}
use eg_gs.Super.Search.{map_bit, map_bit-add, Scanned}

-- The blocks of a map are there, and no two are one.
pub record IsMap (maps : Ram Ptr) (blocks : ℕ) : Type 0 where
  pub present : (b : ℕ) → b < blocks → maps b ≢ null
  pub distinct : (a b : ℕ) → a < blocks → b < blocks → maps a ≡ maps b → a ≡ b

abbrev pub after_take : Kernel → Ptr → ℕ → Kernel
after_take k bh j = with_buffer k bh (λ b. record b { b_data = set_bit b.b_data j; b_dirt = 1 })

abbrev pub after_drop : Kernel → Ptr → ℕ → Kernel
after_drop k bh j = with_buffer k bh (λ b. record b { b_data = clear_bit b.b_data j; b_dirt = 1 })

pub take_bit-ok :
    (k : Kernel) (bh : Ptr) (j : ℕ)
    → bit_at (k.buffers bh).b_data j ≡ 0
    → take_bit bh j k ≡ ok tt (after_take k bh j)
unfolding take_bit
take_bit-ok k bh j h =
    let free : (bit_at (k.buffers bh).b_data j == 1) ≡ false = ground arith in rw free

module _ (k : Kernel) (maps : Ram Ptr) (blocks i j : ℕ) (is : IsMap maps blocks) (hi : i < blocks)
    (hj : j < block_bits) where
  pub map_bit-after_take :
      (n : ℕ)
      → n < blocks * block_bits
      → map_bit (after_take k (maps i) j).buffers maps n
        ≡ (if n == j + i * block_bits then 1 else map_bit k.buffers maps n)
  unfolding map_bit
  map_bit-after_take n hn = ground (
    arith,
    is.distinct (n / block_bits) i,
    bit_at-set_bit (k.buffers (maps i)).b_data j (n % block_bits),
  )

  pub map_bit-after_drop :
      (n : ℕ)
      → n < blocks * block_bits
      → map_bit (after_drop k (maps i) j).buffers maps n
        ≡ (if n == j + i * block_bits then 0 else map_bit k.buffers maps n)
  unfolding map_bit
  map_bit-after_drop n hn = ground (
    arith,
    is.distinct (n / block_bits) i,
    bit_at-clear_bit (k.buffers (maps i)).b_data j (n % block_bits),
  )

-- `pos` was the first clear bit of the map in the buffers `bs`; in `bs'` it is set, and no other bit differs.
pub record Taken (bs : Ram BufferHead) (maps : Ram Ptr) (blocks pos : ℕ) (bs' : Ram BufferHead)
    : Type 0 where
  pub inside : pos < blocks * block_bits
  pub was_clear : map_bit bs maps pos ≡ 0
  pub least : (n : ℕ) → n < pos → map_bit bs maps n ≡ 1
  pub marked :
      (n : ℕ)
      → n < blocks * block_bits
      → map_bit bs' maps n ≡ (if n == pos then 1 else map_bit bs maps n)

pub take_found :
    (k : Kernel) (maps : Ram Ptr) (blocks : ℕ) (f : Scan)
    → IsMap maps blocks
    → Scanned k.buffers maps 0 blocks f
    → f.j < block_bits
    → (take_bit f.bh f.j k ≡ ok tt (after_take k f.bh f.j))
      × Taken k.buffers maps blocks (f.j + f.i * block_bits) (after_take k f.bh f.j).buffers
take_found k maps blocks f is s h =
    let (low, high, bh, clear, full) = s.hit h in
    rw bh (
      take_bit-ok k (maps f.i) f.j clear,
      record {
        inside = omega arith;
        was_clear = map_bit-add k.buffers maps f.i f.j h ∙ clear;
        least = λ n hn. full n (omega arith) hn;
        marked = map_bit-after_take k maps blocks f.i f.j is (omega arith) h;
      },
    )
