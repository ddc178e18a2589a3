-- ===== src/Gate/Decode.antt =====
-- What the processor reads from a descriptor is what `gdt_set_gate` and `idt_set_gate` were given.
use eg_gs.Base.{
  ℕ, ◌+◌, ◌*◌, ◌/◌, ◌%◌, ◌^◌, ◌<◌, ◌≡◌, refl, ap₂, sym, ◌∙◌, arith, bit_and, bit_or, Ram, and_mask,
  eq_of_table, holds_below, ◌==◌, if◌then◌else◌,
}
use eg_gs.Gate.{GdtEntry, gdt_set_gate, IdtEntry}

-- The fields of a segment descriptor as the processor puts them together.
abbrev pub segment_base : GdtEntry → ℕ
segment_base e = e.base_low + 2 ^ 16 * e.base_middle + 2 ^ 24 * e.base_high

abbrev pub segment_limit : GdtEntry → ℕ
segment_limit e = e.limit_low + 2 ^ 16 * (e.granularity % 16)

abbrev pub segment_flags : GdtEntry → ℕ
segment_flags e = e.granularity / 16

high_half : (g : ℕ) → g < 2 ^ 8 → bit_and g 0xF0 ≡ g / 16 * 2 ^ 4
high_half g h =
    eq_of_table 256 (λ g. bit_and g 0xF0) (λ g. g / 16 * 2 ^ 4) (unfold holds_below in refl) g h

joined : (x : ℕ) → x < 256 → bit_or (x % 16) (x / 16 * 16) ≡ x
joined x h =
    eq_of_table 256 (λ x. bit_or (x % 16) (x / 16 * 16)) (λ x. x) (unfold holds_below in refl) x h

join : (a b : ℕ) → a < 16 → b < 16 → bit_or a (b * 2 ^ 4) ≡ b * 16 + a
join a b ha hb =
    let low : (b * 16 + a) % 16 ≡ a = omega arith in
    let high : (b * 16 + a) / 16 * 16 ≡ b * 2 ^ 4 = omega arith in
    ap₂ bit_or (sym low) (sym high) ∙ joined (b * 16 + a) (omega arith)

-- For a base of 32 bits, the descriptor written by `gdt_set_gate` has that base, the low 20 bits of
-- the limit, the access byte and the upper four bits of the granularity; others stay as they were.
pub gdt_set_gate-decode :
    (gdt : Ram GdtEntry) (num base limit access gran : ℕ)
    → base < 2 ^ 32
    → gran < 2 ^ 8
    → (segment_base (gdt_set_gate gdt num base limit access gran num) ≡ base)
      × (segment_limit (gdt_set_gate gdt num base limit access gran num) ≡ limit % 2 ^ 20)
      × (segment_flags (gdt_set_gate gdt num base limit access gran num) ≡ gran / 16)
      × ((gdt_set_gate gdt num base limit access gran num).access ≡ access)
      × ((i : ℕ)
          → (if num == i then gdt i else gdt_set_gate gdt num base limit access gran i) ≡ gdt i)
unfolding gdt_set_gate
gdt_set_gate-decode gdt num base limit access gran hb hg =
    let low : (limit / 2 ^ 16) % 2 ^ 4 < 16 = omega arith in
    let flags = join ((limit / 2 ^ 16) % 2 ^ 4) (gran / 16) low (omega arith) in
    let gates : bit_or (bit_and (limit / 2 ^ 16) 0x0F) (bit_and gran 0xF0)
        ≡ gran / 16 * 16 + (limit / 2 ^ 16) % 2 ^ 4 =
      rw (and_mask 4 (limit / 2 ^ 16), high_half gran hg) flags in
    (
      ground (arith, and_mask 16 base, and_mask 8 (base / 2 ^ 16), and_mask 8 (base / 2 ^ 24)),
      ground (arith, and_mask 16 limit, gates),
      ground (arith, gates),
      ground arith,
      λ i. ground arith,
    )

-- The address that the processor jumps to through a gate.
abbrev pub gate_base : IdtEntry → ℕ
gate_base e = e.base_lo + 2 ^ 16 * e.base_hi
