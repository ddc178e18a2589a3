-- ===== src/Super/Search.antt =====
-- The search of a map's blocks: the first clear bit of the whole map.
use eg_gs.Base.{
  ℕ, zero, suc, ◌+◌, ◌-◌, ◌*◌, ◌/◌, ◌%◌, ◌≤◌, ◌<◌, ◌≡◌, ◌≢◌, refl, false, inl, inr, Bool-cases, Ram,
  arith, ◌==◌, ltb,
}
use eg_gs.Kernel.{Kernel, Ptr, null, BufferHead}
use eg_gs.Super.{Scan, scan_maps}
use eg_gs.Super.Bitmap.{bit_at, block_bits, find_first_zero}
use eg_gs.Super.Bitmap.Laws.{find_first_zero-Stops}

-- Bit `n` of the map in the blocks `maps`.
unfoldable pub map_bit : Ram BufferHead → Ram Ptr → ℕ → ℕ
map_bit bs maps n = bit_at (bs (maps (n / block_bits))).b_data (n % block_bits)

pub map_bit-add :
    (bs : Ram BufferHead) (maps : Ram Ptr) (i j : ℕ)
    → j < block_bits
    → map_bit bs maps (j + i * block_bits) ≡ bit_at (bs (maps i)).b_data j
unfolding map_bit
map_bit-add bs maps i j h =
    let block : (j + i * block_bits) / block_bits ≡ i = omega arith in
    let bit : (j + i * block_bits) % block_bits ≡ j = omega arith in rw (block, bit)

in_block :
    (bs : Ram BufferHead) (maps : Ram Ptr) (i z q : ℕ)
    → i * block_bits ≤ q
    → q < z + i * block_bits
    → z ≤ block_bits
    → bit_at (bs (maps i)).b_data (q - i * block_bits) ≡ 1
    → map_bit bs maps q ≡ 1
unfolding map_bit
in_block bs maps i z q a b c h =
    let block : q / block_bits ≡ i = omega arith in
    let bit : q % block_bits ≡ q - i * block_bits = omega arith in rw (block, bit) h

-- The outcome of a search of the `n` blocks from the block `i` on.
pub record Scanned (bs : Ram BufferHead) (maps : Ram Ptr) (i n : ℕ) (f : Scan) : Type 0 where
  pub hit :
      f.j < block_bits
      → (i ≤ f.i)
        × (f.i < i + n)
        × (f.bh ≡ maps f.i)
        × (bit_at (bs (maps f.i)).b_data f.j ≡ 0)
        × ((q : ℕ) → i * block_bits ≤ q → q < f.j + f.i * block_bits → map_bit bs maps q ≡ 1)
  pub miss :
      block_bits ≤ f.j
      → (q : ℕ) → i * block_bits ≤ q
      → q < (i + n) * block_bits
      → map_bit bs maps q ≡ 1

pub scan_maps-Scanned :
    (n : ℕ) (k : Kernel) (maps : Ram Ptr) (i : ℕ) (bh : Ptr) (j : ℕ)
    → ((b : ℕ) → i ≤ b → b < i + n → maps b ≢ null)
    → block_bits ≤ j
    → Scanned k.buffers maps i n (scan_maps n k maps i bh j)
unfolding scan_maps
scan_maps-Scanned zero k maps i bh j present h = record {
  hit = λ p. absurd (omega arith);
  miss = λ p q a b. absurd (omega arith);
}
scan_maps-Scanned (suc n) k maps i bh j present h =
    let z = find_first_zero (k.buffers (maps i)).b_data in
    let s = find_first_zero-Stops (k.buffers (maps i)).b_data in
    let there : (maps i == null) ≡ false = ground (arith, present i) in
    let block : (q : ℕ)
        → i * block_bits ≤ q
        → q < z + i * block_bits
        → map_bit k.buffers maps q ≡ 1 =
      λ q a b.
        in_block k.buffers maps i z q a b s.before
          (s.full (q - i * block_bits) (omega arith) (omega arith)) in
    elim (Bool-cases (ltb z block_bits)) [
      | inl e ↦
          rw (there, e)
            (record {
              hit = λ p. (omega arith, omega arith, refl, s.clear (ground arith), block);
              miss = λ p. absurd (ground arith);
            })
      | inr e ↦
          let rest =
            scan_maps-Scanned n k maps (i + 1) (maps i) z
              (λ b p q. present b (omega arith) (omega arith)) (ground arith) in
          let whole : z ≡ block_bits = ground (arith, s.before) in
          let both : (e : ℕ)
              → ((q : ℕ) → (i + 1) * block_bits ≤ q → q < e → map_bit k.buffers maps q ≡ 1)
              → (q : ℕ) → i * block_bits ≤ q
              → q < e
              → map_bit k.buffers maps q ≡ 1 =
            λ e later q a b. elim (Bool-cases (ltb q (z + i * block_bits))) [
              | inl x ↦ block q a (ground arith)
              | inr x ↦ later q (ground arith) b
            ] in
          rw (there, e)
            (record {
              hit = λ p.
                  let (low, high, bh, clear, full) = rest.hit p in
                  (omega arith, omega arith, bh, clear, both _ full);
              miss = λ p q a b.
                  both ((i + suc n) * block_bits) (λ q' a' b'. rest.miss p q' a' (omega arith)) q a
                    b;
            })
    ]
