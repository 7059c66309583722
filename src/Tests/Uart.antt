-- ===== src/Tests/Uart.antt =====
-- The UART with input waiting, and a kernel message sent to it.
use qemu_rust_risc_v.Prelude.{ℕ, ◌≡◌, refl, true, ◌!=◌, List, [], ◌∷◌, ◌++◌}
use qemu_rust_risc_v.Uart.Defs.{
  Uart, new, isr, rhr, thr, ier_offset, read8, write8, has_pending_interrupt, upper_panic,
}
use qemu_rust_risc_v.Uart.Line.{has_pending-read_isr}
use qemu_rust_risc_v.Uart.Fifo.{
  Event, receive, read, write, run, step, received, sent, taken, replies, queue_replies, queue_run,
  input_run, stdout_run,
}
use qemu_rust_risc_v.Uart.Panic.{Window, upper, send_all, texts, output-Window, panic_lem}

-- Both interrupts enabled and one byte waiting.
abbrev pub busy : Uart
busy = record new { ier = 3; input_buffer = 65 ∷ [] }

has_pending-read_isr_example : has_pending_interrupt busy ≡ ((read8 busy isr).1 != 1)
has_pending-read_isr_example = has_pending-read_isr busy

abbrev session : List Event
session =
    receive 66
    ∷ read rhr
    ∷ write thr 72
    ∷ receive 67
    ∷ read rhr
    ∷ write ier_offset 0
    ∷ write thr 105
    ∷ []

input_run_example :
    (replies busy session ≡ queue_replies busy.input_buffer session)
    × ((run busy session).input_buffer ≡ queue_run busy.input_buffer session)
    × (busy.input_buffer ++ received session
        ≡ taken busy session ++ (run busy session).input_buffer)
input_run_example = input_run busy session

-- A third read finds nothing.
replies_test : replies busy (session ++ (read rhr ∷ read rhr ∷ [])) ≡ 65 ∷ 66 ∷ 67 ∷ 0 ∷ []
unfolding replies step read8 write8
replies_test = refl

taken_test : taken busy session ≡ 65 ∷ 66 ∷ []
unfolding taken step read8 write8
taken_test = refl

stdout_run_example : (run busy session).stdout ≡ busy.stdout ++ sent session
stdout_run_example = stdout_run busy session

-- "Kernel pani" after a control byte.
abbrev start : List ℕ
start = 200 ∷ 75 ∷ 101 ∷ 114 ∷ 110 ∷ 101 ∷ 108 ∷ 32 ∷ 112 ∷ 97 ∷ 110 ∷ 105 ∷ []

output-Window_example : Window (send_all new start).output_buffer (texts start)
output-Window_example = output-Window start

panic_lem_example : (send_all new (start ++ (99 ∷ 33 ∷ []))).panic_detected ≡ true
panic_lem_example = panic_lem start (33 ∷ []) [] upper_panic 99 upper refl refl
