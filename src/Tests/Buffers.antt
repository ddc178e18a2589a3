-- ===== src/Tests/Buffers.antt =====
-- A cache of three buffers, of which the second holds block 2 of device 0x301 and the others nothing.
use eg_gs.Base.{ℕ, ◌+◌, ◌-◌, ◌^◌, ◌≡◌, ◌≢◌, refl, some, Ram, arith, ◌==◌, if◌then◌else◌, true}
use eg_gs.Kernel.{Kernel, Ptr, null, BufferHead}
use eg_gs.Kernel.Result.{Returns, Ensures, ok}
use eg_gs.Buffer.{choose_buff, claim_buff, find_buff, holds_block, read_buff}
use eg_gs.Buffer.Queues.{hash_index}
use eg_gs.Buffer.Queues.Chains.{Chains, Listed}
use eg_gs.Buffer.Queues.Ring.{Ring}
use eg_gs.Buffer.Claim.{Cache, Claimed, claim_buff-Claimed}
use eg_gs.Buffer.Choose.{Choice, choose_buff-Choice}
use eg_gs.Buffer.Find.{find_buff-finds}
use eg_gs.Buffer.Orderly.Reading.{Read, read_buff-Read}
use eg_gs.Buffer.Start.{init_buff}
use eg_gs.Buffer.Start.Ready.{Ready, init_buff-Cache}
use eg_gs.Tests.{idle, machine, head_buffer}

abbrev three : Ram BufferHead
three p = record head_buffer {
  b_dev = if p == 2 then 0x301 else 0;
  b_blocknr = if p == 2 then 2 else 0;
  b_count = 0;
  b_prev_free = if p == 1 then 3 else p - 1;
  b_next_free = if p == 3 then 1 else p + 1;
}

abbrev pub tidy : Kernel
tidy = record machine {
  buffers = three;
  nr_buffers = 3;
  hash_table = λ h. if h == hash_index 0x301 2 then 2 else 0;
}

abbrev pub in_order : ℕ → Ptr
in_order i = i + 1

abbrev pub stamps : Ram ℕ
stamps _ = 0

tidy-Ring : Ring tidy 3 in_order
tidy-Ring = record {
  inhabited = omega arith;
  head = refl;
  not_null = λ i l. omega arith;
  in_range = λ i l. omega arith;
  distinct = λ i j l m e. omega arith;
  next = λ i l. ground arith;
  prev = λ i l. ground arith;
}

tidy-Chains : Chains tidy null stamps 1
tidy-Chains = record {
  next_link = λ p l n. absurd (n refl);
  prev_link = λ p l n. absurd (n refl);
  first = λ p l e. ground arith;
  head = λ h a n. ground arith;
  unlisted = λ p n o m e. (refl, refl);
  past = λ p l. omega arith;
  unique = λ p q l m d b. ground arith;
}

pub tidy-Cache : Cache tidy 3 in_order stamps 1
tidy-Cache = record { ring = tidy-Ring; chains = tidy-Chains }

claim_buff-Claimed_example :
    Returns
      (λ _ k'. Claimed tidy 3 0 in_order stamps 1 0x302 5 k')
      (claim_buff idle 9 0x302 5 1 tidy)
claim_buff-Claimed_example =
    claim_buff-Claimed idle 9 0x302 5 0 tidy-Cache (omega arith) (omega arith)
      (λ p l d b. ground arith)

find_buff-finds_example :
    (bh : Ptr) × (find_buff idle 3 0x301 2 tidy ≡ ok bh tidy)
    × (bh ≢ null → Listed tidy null bh × (holds_block (tidy.buffers bh) 0x301 2 ≡ true))
    × ((p : Ptr) → Listed tidy null p → holds_block (tidy.buffers p) 0x301 2 ≡ true → bh ≡ p)
find_buff-finds_example = find_buff-finds idle 3 0x301 2 tidy-Chains (omega arith)

choose_buff-Choice_example :
    (bh : Ptr) × (choose_buff 3 tidy tidy.free_list null ≡ some bh) × Choice tidy 3 in_order bh
choose_buff-Choice_example = choose_buff-Choice tidy-Ring 3 (omega arith)

read_buff-Read_example : Ensures (Read 3 0x301 2) (read_buff idle 3 0x301 2 tidy)
read_buff-Read_example =
    read_buff-Read idle 3 3 0x301 2 tidy (omega arith)
      (record { nth = in_order; stamp = stamps; now = 1; cache = tidy-Cache })

init_buff-Cache_example :
    Returns
      (λ _ k'. Ready k')
      (init_buff 0x11_0000 64 2049 (2 ^ 21) (record machine { nr_buffers = 0 }))
init_buff-Cache_example =
    init_buff-Cache 0x11_0000 64 2049 (2 ^ 21) (record machine { nr_buffers = 0 }) refl
      (omega arith) (omega arith) (omega arith) (omega arith)
