-- ===== src/Hd/Quiet/Handlers.antt =====
-- The driver of hd.c as a `Device` of the block layer.
use eg_gs.Base.{ℕ, zero, suc, List, Ram}
use eg_gs.Kernel.{Ptr, Request, Handler, recal_intr, read_intr, write_intr, Io}
use eg_gs.Kernel.Result.{M, Void}
use eg_gs.Hd.{
  win_result, ready_rounds, controller_ready, send_command, hd_out, busy_rounds, drive_busy,
  reset_controller, wait_drq, issue, do_hd_request,
}
use eg_gs.Hd.Interrupts.{port_read, on_read, on_write, on_recal, run_handler}
use eg_gs.Hd.Quiet.{Quietly, quiet, in_progress-Quietly, end_request-Quietly, bad_rw_intr-Quietly}

module _ (answer : List Io → (port : ℕ) → ℕ) where
  win_result-Quietly : Quietly (win_result answer)
  unfolding win_result
  win_result-Quietly = search quiet depth 9

  ready_rounds-Quietly : (n : ℕ) → Quietly (ready_rounds answer n)
  unfolding ready_rounds
  ready_rounds-Quietly zero = search quiet
  ready_rounds-Quietly (suc n) = search (quiet, ready_rounds-Quietly n) depth 9

  send_command-Quietly :
      (drive nsect sect head cyl cmd : ℕ)
      → Quietly (send_command answer drive nsect sect head cyl cmd)
  unfolding send_command
  send_command-Quietly drive nsect sect head cyl cmd = search quiet depth 20

  hd_out-Quietly :
      (drive nsect sect head cyl cmd : ℕ) (h : Handler)
      → Quietly (hd_out answer drive nsect sect head cyl cmd h)
  unfolding hd_out controller_ready
  hd_out-Quietly drive nsect sect head cyl cmd h =
      search (quiet, ready_rounds-Quietly 999999, send_command-Quietly) depth 9

  busy_rounds-Quietly : (n : ℕ) → Quietly (busy_rounds answer n)
  unfolding busy_rounds
  busy_rounds-Quietly zero = search quiet
  busy_rounds-Quietly (suc n) = search (quiet, busy_rounds-Quietly n) depth 9

  drive_busy-Quietly : Quietly (drive_busy answer)
  unfolding drive_busy
  drive_busy-Quietly = search (quiet, busy_rounds-Quietly 10000) depth 9

  reset_controller-Quietly : (drive : ℕ) → Quietly (reset_controller answer drive)
  unfolding reset_controller
  reset_controller-Quietly drive = search (quiet, drive_busy-Quietly, hd_out-Quietly) depth 12

  wait_drq-Quietly : (n : ℕ) → Quietly (wait_drq answer n)
  unfolding wait_drq
  wait_drq-Quietly zero = search quiet
  wait_drq-Quietly (suc n) = search (quiet, wait_drq-Quietly n) depth 9

  issue-Quietly :
      (again : M Void) (r : Request) (drive block : ℕ)
      → Quietly again
      → Quietly (issue answer again r drive block)
  unfolding issue
  issue-Quietly again r drive block h =
      search
        (
          quiet,
          reset_controller-Quietly,
          hd_out-Quietly,
          wait_drq-Quietly 3000,
          bad_rw_intr-Quietly,
        )
        depth 16

  pub do_hd_request-Quietly : (n : ℕ) → Quietly (do_hd_request answer n)
  unfolding do_hd_request
  do_hd_request-Quietly zero = search quiet
  do_hd_request-Quietly (suc n) =
      search (quiet, issue-Quietly, end_request-Quietly, do_hd_request-Quietly n) depth 16

  module _ (stream : List Io → Ram ℕ) (fuel : ℕ) where
    port_read-Quietly : (bh : Ptr) (offset : ℕ) → Quietly (port_read answer stream fuel bh offset)
    unfolding port_read
    port_read-Quietly bh offset = search quiet depth 9

    on_read-Quietly : Quietly (on_read answer stream fuel)
    unfolding on_read
    on_read-Quietly =
        search
          (
            quiet,
            win_result-Quietly,
            in_progress-Quietly,
            bad_rw_intr-Quietly,
            do_hd_request-Quietly fuel,
            port_read-Quietly,
            end_request-Quietly,
          )
          depth 16

    on_write-Quietly : Quietly (on_write answer stream fuel)
    unfolding on_write
    on_write-Quietly =
        search
          (
            quiet,
            win_result-Quietly,
            in_progress-Quietly,
            bad_rw_intr-Quietly,
            do_hd_request-Quietly fuel,
            end_request-Quietly,
          )
          depth 16

    on_recal-Quietly : Quietly (on_recal answer stream fuel)
    unfolding on_recal
    on_recal-Quietly =
        search (quiet, win_result-Quietly, bad_rw_intr-Quietly, do_hd_request-Quietly fuel) depth 9

    pub run_handler-Quietly : (h : Handler) → Quietly (run_handler answer stream fuel h)
    unfolding run_handler
    run_handler-Quietly recal_intr = on_recal-Quietly
    run_handler-Quietly read_intr = on_read-Quietly
    run_handler-Quietly write_intr = on_write-Quietly
