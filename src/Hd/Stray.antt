-- ===== src/Hd/Stray.antt =====
-- Interrupts of the disk that come when no request is in progress.
use eg_gs.Base.{
  ℕ, ◌≡◌, refl, ap, ◌∙◌, Bool, true, false, some, List, ◌∷◌, Ram, Bool-cases, inl, inr, bit_and,
  ◌%◌, ◌==◌,
}
use eg_gs.Kernel.{Kernel, null, read_intr, Io, inp}
use eg_gs.Kernel.Result.{ok, wild, byte}
use eg_gs.Hd.{in_progress, hd_status, hd_error, hd_major, win_result}
use eg_gs.Hd.Driver.{disk_interrupt, run_installed}
use eg_gs.Hd.Interrupts.{on_read, run_handler}

module _ (answer : List Io → (port : ℕ) → ℕ) where
  -- `win_result` returns, and makes accesses only.
  win_result-returns :
      (k : Kernel)
      → (b : Bool) × (io : List Io) × (win_result answer k ≡ ok b (record k { io = io }))
  unfolding win_result
  win_result-returns k = elim (Bool-cases (bit_and (byte (answer k.io hd_status)) 0xF1 == 0x50)) [
    | inl e ↦ (false, inp hd_status ∷ k.io, rw e refl)
    | inr e ↦ elim (Bool-cases (byte (answer k.io hd_status) % 2 == 1)) [
      | inl f ↦ (true, inp hd_error ∷ inp hd_status ∷ k.io, rw (e, f) refl)
      | inr f ↦ (true, inp hd_status ∷ k.io, rw (e, f) refl)
    ]
  ]

  in_progress-stray :
      (k : Kernel) → (k.blk_dev hd_major).current_request ≡ null → in_progress k ≡ wild
  unfolding in_progress
  in_progress-stray k idle = rw idle refl

  -- Whatever the controller answers: an interrupt for `read_intr` with no request in progress stores
  -- through `NULL`, and the run is `wild`.
  pub disk_interrupt-stray :
      (stream : List Io → Ram ℕ) (fuel : ℕ) (k : Kernel)
      → (k.blk_dev hd_major).current_request ≡ null
      → k.irq14 ≡ some read_intr
      → disk_interrupt answer stream fuel k ≡ wild
  unfolding disk_interrupt run_installed run_handler on_read
  disk_interrupt-stray stream fuel k idle waits =
      let (b, io, e) = win_result-returns k in
      ap (λ h. run_installed answer stream fuel h k) waits
      ∙ rw (e, in_progress-stray (record k { io = io }) idle) refl
