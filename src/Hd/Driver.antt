-- ===== src/Hd/Driver.antt =====
-- The driver of hd.c as the device that the block layer and the buffer cache run on.
use eg_gs.Base.{ℕ, Option, none, some, List, Ram, true, update, bit_and}
use eg_gs.Kernel.{Kernel, Handler, Io}
use eg_gs.Kernel.Result.{M, Void, Ensures, ◌>>=◌, ◌>>◌, skip, modify}
use eg_gs.Kernel.Device.{Device, Quiet}
use eg_gs.Hd.{do_hd_request, hd_major, inb, outb}
use eg_gs.Hd.Interrupts.{run_handler}
use eg_gs.Hd.Quiet.{Quietly, quiet}
use eg_gs.Hd.Quiet.Handlers.{do_hd_request-Quietly, run_handler-Quietly}

module _ (answer : List Io → (port : ℕ) → ℕ) where
  -- The masks of the interrupt controllers: the disk's lines are switched on.
  unfoldable pub enable_hd : M Void
  enable_hd = do
    modify (λ k. record k {
      blk_dev = update k.blk_dev hd_major (record (k.blk_dev hd_major) { request_fn = true });
    })
    mask ← inb answer 0x21
    outb (bit_and mask 0xFB) 0x21
    mask ← inb answer 0xA1
    outb (bit_and mask 0xBF) 0xA1

module _ (answer : List Io → (port : ℕ) → ℕ) (stream : List Io → Ram ℕ) (fuel : ℕ) where
  unfoldable pub run_installed : Option Handler → M Void
  run_installed none = skip
  run_installed (some handler) = run_handler answer stream fuel handler

  -- What `irq_handler` runs at interrupt 14: the handler that is installed, if there is one.
  unfoldable pub disk_interrupt : M Void
  disk_interrupt k = run_installed k.irq14 k

  run_installed-Quietly : (h : Option Handler) → Quietly (run_installed h)
  unfolding run_installed
  run_installed-Quietly none = search quiet
  run_installed-Quietly (some h) = run_handler-Quietly answer stream fuel h

  -- Whatever the controller answers and whatever data it sends: when `do_hd_request`, or the handler
  -- that runs at interrupt 14, returns, no buffer has changed its block, its dirt, its users or its
  -- links, and the heads of the lists, the number of buffers, the super blocks and the inodes are as
  -- before. This says nothing of a run that stores through `CURRENT_REQUEST` when there is none, as
  -- `read_intr` does when it is run with no request in progress, or outside the block of the request's
  -- buffer: such a run is `wild`, and does not return.
  pub driver-Quiet :
      (k : Kernel)
      → Ensures (λ _ k'. Quiet k k') (do_hd_request answer fuel k)
        × Ensures (λ _ k'. Quiet k k') (disk_interrupt k)
  driver-Quiet k = (
    unfold Quietly in do_hd_request-Quietly answer fuel k,
    unfold disk_interrupt in unfold Quietly in run_installed-Quietly k.irq14 k,
  )

  abbrev pub disk : Device
  disk = record {
    request_fn = do_hd_request answer fuel;
    interrupt = disk_interrupt;
    request_fn-Quiet = λ k. (driver-Quiet k).0;
    interrupt-Quiet = λ k. (driver-Quiet k).1;
  }
