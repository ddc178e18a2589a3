-- ===== src/Start/Clock.antt =====
-- timer.c: ticks, and the wait for a number of them. `timer_ticks` is an `unsigned long`.
use eg_gs.Base.{
  ℕ, zero, suc, ◌+◌, ◌%◌, ◌^◌, ◌<◌, ◌≡◌, refl, true, false, Option, none, some, ltb, arith, inl,
  inr, Bool-cases, if◌then◌else◌,
}

unfoldable pub timer_handler : (timer_ticks : ℕ) → ℕ
timer_handler timer_ticks = (timer_ticks + 1) % 2 ^ 32

-- `while (timer_ticks < eticks);` with a tick between two tests; `none` if the rounds ran out.
unfoldable pub wait_ticks : (rounds : ℕ) → (eticks timer_ticks : ℕ) → Option ℕ
unfolding timer_handler
wait_ticks zero eticks timer_ticks = none
wait_ticks (suc n) eticks timer_ticks =
    let later = wait_ticks n eticks (timer_handler timer_ticks) in
    if ltb timer_ticks eticks then later else some timer_ticks

-- The ticks at the end of `timer_wait`.
unfoldable pub timer_wait : (rounds : ℕ) → (timer_ticks ticks : ℕ) → Option ℕ
unfolding wait_ticks
timer_wait rounds timer_ticks ticks = wait_ticks rounds ((timer_ticks + ticks) % 2 ^ 32) timer_ticks

wait_ticks-ends :
    (n left now : ℕ)
    → now + left < 2 ^ 32
    → left < n
    → wait_ticks n (now + left) now ≡ some (now + left)
unfolding wait_ticks timer_handler
wait_ticks-ends zero left now h r = absurd (omega arith)
wait_ticks-ends (suc n) zero now h r = ground arith
wait_ticks-ends (suc n) (suc left) now h r =
    let step : (now + 1) % 2 ^ 32 ≡ now + 1 = omega arith in
    let end : now + suc left ≡ now + 1 + left = omega arith in
    let waits : ltb now (now + 1 + left) ≡ true = ground arith in
    rw (end, waits, step) (wait_ticks-ends n left (now + 1) (omega arith) (omega arith))

-- With more rounds than ticks to wait for, `timer_wait` returns. The clock has advanced by that many
-- ticks if the sum of the two is below 2 ^ 32; otherwise the sum has wrapped around, and it returns
-- at once, without any wait.
pub timer_wait-ends :
    (rounds timer_ticks ticks : ℕ)
    → timer_ticks < 2 ^ 32
    → ticks < 2 ^ 32
    → ticks < rounds
    → timer_wait rounds timer_ticks ticks
      ≡ some (if ltb (timer_ticks + ticks) (2 ^ 32) then timer_ticks + ticks else timer_ticks)
unfolding timer_wait
timer_wait-ends zero timer_ticks ticks a b r = absurd (omega arith)
timer_wait-ends (suc n) timer_ticks ticks a b r =
    elim (Bool-cases (ltb (timer_ticks + ticks) (2 ^ 32))) [
      | inl e ↦
          let whole : (timer_ticks + ticks) % 2 ^ 32 ≡ timer_ticks + ticks = ground arith in
          rw (e, whole) (wait_ticks-ends (suc n) ticks timer_ticks (ground arith) r)
      | inr e ↦
          let over : ltb timer_ticks ((timer_ticks + ticks) % 2 ^ 32) ≡ false = ground arith in
          rw e (unfold wait_ticks in rw over refl)
    ]
