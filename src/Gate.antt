-- ===== src/Gate.antt =====
-- gdt.c, idt.c, and the parts of isrs.c and irq.c that fill the interrupt table and dispatch
-- interrupts. An `unsigned long` is 32 bits wide.
pub mod Decode
pub mod Faults
pub mod Vectors
use eg_gs.Base.{
  ℕ, zero, suc, ◌+◌, ◌-◌, ◌*◌, ◌/◌, ◌%◌, ◌^◌, bit_and, bit_or, Option, none, some, List, [], ◌∷◌,
  Ram, update, memset, leb, ◌==◌, if◌then◌else◌,
}

-- `struct gdt_entry`.
pub record GdtEntry : Type 0 where
  pub limit_low : ℕ
  pub base_low : ℕ
  pub base_middle : ℕ
  pub access : ℕ
  pub granularity : ℕ
  pub base_high : ℕ

-- `gdt_set_gate`.
unfoldable pub gdt_set_gate : Ram GdtEntry → (num base limit access gran : ℕ) → Ram GdtEntry
gdt_set_gate gdt num base limit access gran = update gdt num (record {
  base_low = bit_and base 0xFFFF;
  base_middle = bit_and (base / 2 ^ 16) 0xFF;
  base_high = bit_and (base / 2 ^ 24) 0xFF;
  limit_low = bit_and limit 0xFFFF;
  granularity = bit_or (bit_and (limit / 2 ^ 16) 0x0F) (bit_and gran 0xF0);
  access = access;
})

-- The entries that `gdt_install` makes, before it loads the table.
unfoldable pub gdt_install : Ram GdtEntry → Ram GdtEntry
unfolding gdt_set_gate
gdt_install gdt =
    let gdt = gdt_set_gate gdt 0 0 0 0 0 in
    let gdt = gdt_set_gate gdt 2 0 0xFFFF_FFFF 0x9A 0xCF in
    gdt_set_gate gdt 1 0 0xFFFF_FFFF 0x92 0xCF

-- `struct idt_entry`.
pub record IdtEntry : Type 0 where
  pub base_lo : ℕ
  pub sel : ℕ
  pub always0 : ℕ
  pub flags : ℕ
  pub base_hi : ℕ

-- `idt_set_gate`.
unfoldable pub idt_set_gate : Ram IdtEntry → (num base sel flags : ℕ) → Ram IdtEntry
idt_set_gate idt num base sel flags = update idt num (record {
  base_lo = bit_and base 0xFFFF;
  base_hi = bit_and (base / 2 ^ 16) 0xFFFF;
  sel = sel;
  always0 = 0;
  flags = flags;
})

abbrev pub zero_entry : IdtEntry
zero_entry = record { base_lo = 0; sel = 0; always0 = 0; flags = 0; base_hi = 0 }

-- `idt_install`: 256 entries of zeros.
unfoldable pub idt_install : Ram IdtEntry → Ram IdtEntry
idt_install idt = memset idt 0 zero_entry 256

-- The gates `first` to `first + n - 1`, whose stubs are at the addresses `stub`, in order.
unfoldable pub set_gates : (n first : ℕ) → (stub : Ram ℕ) → Ram IdtEntry → Ram IdtEntry
unfolding idt_set_gate
set_gates zero first stub idt = idt
set_gates (suc n) first stub idt =
    set_gates n (first + 1) stub (idt_set_gate idt first (stub first) 0x10 0x8E)

-- `isrs_install`; `isr n` is the address of the assembly stub `isr`n.
unfoldable pub isrs_install : (isr : Ram ℕ) → Ram IdtEntry → Ram IdtEntry
unfolding set_gates
isrs_install isr idt = set_gates 32 0 isr idt

-- `irq_remap`: the bytes sent to the interrupt controllers, as (value, port).
abbrev pub irq_remap : List (ℕ × ℕ)
irq_remap =
    (0x11, 0x20)
    ∷ (0x11, 0xA0)
    ∷ (0x20, 0x21)
    ∷ (0x28, 0xA1)
    ∷ (0x04, 0x21)
    ∷ (0x02, 0xA1)
    ∷ (0x01, 0x21)
    ∷ (0x01, 0xA1)
    ∷ (0x0, 0x21)
    ∷ (0x0, 0xA1)
    ∷ []

-- `irq_install`: the bytes sent, and the table after it; `irq n` is the address of the assembly stub
-- `irq`n.
unfoldable pub irq_install : (irq : Ram ℕ) → Ram IdtEntry → List (ℕ × ℕ) × Ram IdtEntry
unfolding set_gates
irq_install irq idt = (irq_remap, set_gates 16 32 (λ v. irq (v - 32)) idt)

-- `irq_routines`, with `none` for 0.
unfoldable pub irq_install_handler {ℓ} :
    {H : Type ℓ} → (ℕ → Option H) → (irq : ℕ) → H → ℕ → Option H
irq_install_handler routines irq handler n = if irq == n then some handler else routines n

unfoldable pub irq_uninstall_handler {ℓ} : {H : Type ℓ} → (ℕ → Option H) → (irq : ℕ) → ℕ → Option H
irq_uninstall_handler routines irq n = if irq == n then none else routines n

-- `irq_handler`: the acknowledgements sent, as (value, port), and the routine that runs.
unfoldable pub irq_handler {ℓ} :
    {H : Type ℓ} → (ℕ → Option H) → (int_no : ℕ) → List (ℕ × ℕ) × Option H
irq_handler routines int_no = (
  if leb 40 int_no then (0x20, 0xA0) ∷ (0x20, 0x20) ∷ [] else (0x20, 0x20) ∷ [],
  routines (int_no - 32),
)
