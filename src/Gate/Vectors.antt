-- ===== src/Gate/Vectors.antt =====
-- Where each interrupt leads once the tables are filled.
use eg_gs.Base.{
  ℕ, zero, suc, ◌+◌, ◌-◌, ◌/◌, ◌^◌, ◌≤◌, ◌<◌, ◌≡◌, refl, inl, inr, Bool-cases, false, arith, Ram,
  and_mask, Option, some, [], ◌∷◌, memset, memset_lem, leb, ltb, ◌==◌, ◌&&◌, if◌then◌else◌,
}
use eg_gs.Gate.{
  IdtEntry, idt_set_gate, set_gates, idt_install, isrs_install, irq_install, zero_entry,
  irq_handler, irq_install_handler,
}
use eg_gs.Gate.Decode.{gate_base}

-- A gate of the kernel's code segment, for interrupts, that leads to `target`.
pub record LeadsTo (target : ℕ) (e : IdtEntry) : Type 0 where
  pub to : gate_base e ≡ target
  pub code : e.sel ≡ 0x10
  pub zeros : e.always0 ≡ 0
  pub kind : e.flags ≡ 0x8E

set_gates-outside :
    (n first : ℕ) (stub : Ram ℕ) (idt : Ram IdtEntry) (v : ℕ)
    → leb first v && ltb v (first + n) ≡ false
    → set_gates n first stub idt v ≡ idt v
unfolding set_gates
set_gates-outside zero first stub idt v h = refl
set_gates-outside (suc n) first stub idt v h =
    ground (
      arith,
      set_gates-outside n (first + 1) stub (idt_set_gate idt first (stub first) 0x10 0x8E) v,
    )

idt_set_gate-LeadsTo :
    (idt : Ram IdtEntry) (v base : ℕ)
    → base < 2 ^ 32
    → LeadsTo base (idt_set_gate idt v base 0x10 0x8E v)
unfolding idt_set_gate
idt_set_gate-LeadsTo idt v base h = ground (arith, and_mask 16 base, and_mask 16 (base / 2 ^ 16))

set_gates-LeadsTo :
    (n first : ℕ) (stub : Ram ℕ) (idt : Ram IdtEntry) (v : ℕ)
    → first ≤ v
    → v < first + n
    → stub v < 2 ^ 32
    → LeadsTo (stub v) (set_gates n first stub idt v)
unfolding set_gates
set_gates-LeadsTo zero first stub idt v p q h = absurd (omega arith)
set_gates-LeadsTo (suc n) first stub idt v p q h = elim (Bool-cases (first == v)) [
  | inl e ↦
      let here : set_gates n (first + 1) stub (idt_set_gate idt first (stub first) 0x10 0x8E) v
          ≡ idt_set_gate idt first (stub first) 0x10 0x8E v =
        set_gates-outside n (first + 1) stub _ v (ground arith) in
      let first_v : first ≡ v = ground arith in
      rw here (rw first_v (idt_set_gate-LeadsTo idt v (stub v) h))
  | inr e ↦
      set_gates-LeadsTo n (first + 1) stub (idt_set_gate idt first (stub first) 0x10 0x8E) v
        (ground arith) (omega arith) h
]

abbrev pub installed : (isr irq : Ram ℕ) → Ram IdtEntry → Ram IdtEntry
installed isr irq idt = (irq_install irq (isrs_install isr (idt_install idt))).1

-- The 32 exception stubs, the 16 interrupt stubs, and zeros.
abbrev pub Wired : (isr irq : Ram ℕ) → ℕ → IdtEntry → Type 0
Wired isr irq v e =
    if ltb v 32
    then LeadsTo (isr v) e
    else if ltb v 48
    then LeadsTo (irq (v - 32)) e
    else e ≡ zero_entry

-- After the three installing functions, with stubs at addresses of 32 bits, the vectors 0 to 31
-- lead to the exception stubs in order, 32 to 47 to the interrupt stubs in order, and the rest of
-- the 256 entries are zeros.
pub vectors :
    (isr irq : Ram ℕ) (idt : Ram IdtEntry) (v : ℕ)
    → ((n : ℕ) → isr n < 2 ^ 32)
    → ((n : ℕ) → irq n < 2 ^ 32)
    → v < 256
    → Wired isr irq v (installed isr irq idt v)
unfolding isrs_install irq_install idt_install
vectors isr irq idt v hi hq inside =
    let zeros = memset idt 0 zero_entry 256 in
    let low = set_gates 32 0 isr zeros in
    elim (Bool-cases (ltb v 32)) [
      | inl e ↦
          rw (e, set_gates-outside 16 32 (λ v. irq (v - 32)) low v (ground arith))
            (set_gates-LeadsTo 32 0 isr zeros v (omega arith) (ground arith) (hi v))
      | inr e ↦ elim (Bool-cases (ltb v 48)) [
        | inl f ↦
            rw (e, f)
              (set_gates-LeadsTo 16 32 (λ v. irq (v - 32)) low v (ground arith) (ground arith)
                (hq (v - 32)))
        | inr f ↦
            rw
              (
                e,
                f,
                set_gates-outside 16 32 (λ v. irq (v - 32)) low v (ground arith),
                set_gates-outside 32 0 isr zeros v (ground arith),
              )
              (ground (arith, memset_lem idt 0 zero_entry 256 v))
      ]
    ]

-- With `handler` installed for the line `irq`, interrupt `32 + line` acknowledges the first
-- controller, and the second one before it for the lines 8 to 15, and runs `handler` if `line` is
-- `irq`, else the routine that the line had.
pub irq_handler-install {ℓ} :
    {H : Type ℓ} (routines : ℕ → Option H) (irq line : ℕ) (handler : H)
    → irq_handler (irq_install_handler routines irq handler) (32 + line) ≡ (
      if leb 8 line then (0x20, 0xA0) ∷ (0x20, 0x20) ∷ [] else (0x20, 0x20) ∷ [],
      if irq == line then some handler else routines line,
    )
unfolding irq_handler irq_install_handler
irq_handler-install routines irq line handler =
    let n : 32 + line - 32 ≡ line = omega arith in ground (arith, n)
