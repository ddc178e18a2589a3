-- ===== src/Hd/Address.antt =====
-- The address of a block in the bytes that the driver sends.
use eg_gs.Base.{
  ℕ, zero, suc, ◌+◌, ◌-◌, ◌*◌, ◌/◌, ◌%◌, ◌^◌, ◌≤◌, ◌<◌, ◌≡◌, refl, arith, bit_or, eq_of_table,
  holds_below,
}
use eg_gs.Kernel.Result.{byte}

-- The block that the controller takes these bytes for, on a drive of this many sectors and heads.
abbrev pub addressed : (sect heads sec low high drive_head : ℕ) → ℕ
addressed sect heads sec low high drive_head =
    ((low + 2 ^ 8 * high) * heads + drive_head % 16) * sect + sec - 1

-- The drive and head byte gives back the head.
head_byte :
    (drive head : ℕ)
    → drive ≤ 1
    → head ≤ 15
    → byte (bit_or (bit_or 0xA0 (drive * 2 ^ 4)) head) % 16 ≡ head
head_byte zero head hd h =
    eq_of_table 16 (λ x. byte (bit_or 0xA0 x) % 16) (λ x. x) (unfold holds_below in refl) head
      (omega arith)
head_byte (suc zero) head hd h =
    eq_of_table 16 (λ x. byte (bit_or 0xB0 x) % 16) (λ x. x) (unfold holds_below in refl) head
      (omega arith)
head_byte (suc (suc n)) head hd h = absurd (omega arith)

-- It gives back the drive too.
pub drive_byte :
    (drive head : ℕ)
    → drive ≤ 1
    → head ≤ 15
    → byte (bit_or (bit_or 0xA0 (drive * 2 ^ 4)) head) / 16 % 2 ≡ drive
drive_byte zero head hd h =
    eq_of_table 16 (λ x. byte (bit_or 0xA0 x) / 16 % 2) (λ _. 0) (unfold holds_below in refl) head
      (omega arith)
drive_byte (suc zero) head hd h =
    eq_of_table 16 (λ x. byte (bit_or 0xB0 x) / 16 % 2) (λ _. 1) (unfold holds_below in refl) head
      (omega arith)
drive_byte (suc (suc n)) head hd h = absurd (omega arith)

-- The address sent for a block is that of the block.
pub addressed_block :
    (drive block sect heads : ℕ)
    → drive ≤ 1
    → 1 ≤ sect
    → sect < 2 ^ 8
    → 1 ≤ heads
    → heads ≤ 16
    → block / sect / heads < 2 ^ 16
    → addressed sect heads
        (byte (block % sect + 1))
        (byte (block / sect / heads))
        (byte (block / sect / heads / 2 ^ 8))
        (byte (bit_or (bit_or 0xA0 (drive * 2 ^ 4)) (block / sect % heads)))
      ≡ block
addressed_block drive block sect heads hd s1 s2 h1 h2 hc =
    let cyl = block / sect / heads in
    let whole : byte cyl + 2 ^ 8 * byte (cyl / 2 ^ 8) ≡ cyl = omega arith in
    let head = head_byte drive (block / sect % heads) hd (omega arith) in
    let sec : byte (block % sect + 1) ≡ block % sect + 1 = omega arith in
    let track : cyl * heads + block / sect % heads ≡ block / sect = omega arith in
    rw (whole, head, sec, track) (omega arith)
