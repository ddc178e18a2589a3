-- ===== src/Tests/Tables.antt =====
-- The flat segments of `gdt_install`, and stubs that stand 16 bytes apart.
use eg_gs.Base.{ℕ, ◌+◌, ◌*◌, ◌%◌, ◌^◌, ◌/◌, ◌≡◌, Ram, arith, if◌then◌else◌, ◌==◌}
use eg_gs.Gate.{GdtEntry, gdt_set_gate, zero_entry}
use eg_gs.Gate.Decode.{segment_base, segment_limit, segment_flags, gdt_set_gate-decode}
use eg_gs.Gate.Vectors.{Wired, installed, vectors}

abbrev no_segments : Ram GdtEntry
no_segments = λ _. record {
  limit_low = 0;
  base_low = 0;
  base_middle = 0;
  access = 0;
  granularity = 0;
  base_high = 0;
}

abbrev code_segment : Ram GdtEntry
code_segment = gdt_set_gate no_segments 2 0 0xFFFF_FFFF 0x9A 0xCF

gdt_set_gate-decode_example :
    (segment_base (code_segment 2) ≡ 0)
    × (segment_limit (code_segment 2) ≡ 0xFFFF_FFFF % 2 ^ 20)
    × (segment_flags (code_segment 2) ≡ 0xCF / 16)
    × ((code_segment 2).access ≡ 0x9A)
    × ((i : ℕ) → (if 2 == i then no_segments i else code_segment i) ≡ no_segments i)
gdt_set_gate-decode_example =
    gdt_set_gate-decode no_segments 2 0 0xFFFF_FFFF 0x9A 0xCF (omega arith) (omega arith)

abbrev stubs : Ram ℕ
stubs n = (0x10_0000 + 16 * n) % 2 ^ 32

vectors_example : Wired stubs stubs 46 (installed stubs stubs (λ _. zero_entry) 46)
vectors_example =
    vectors stubs stubs (λ _. zero_entry) 46 (λ n. omega arith) (λ n. omega arith) (omega arith)
