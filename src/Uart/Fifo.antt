-- ===== src/Uart/Fifo.antt =====
-- src/uart.rs: the device under any interleaving of register accesses with the thread of
-- src/main.rs that feeds its input buffer.
use qemu_rust_risc_v.Prelude.{ℕ, ◌≡◌, refl, sym, ap, ◌∙◌, arith, ◌&&◌}
use qemu_rust_risc_v.Prelude.{◌==◌, if◌then◌else◌, if-cases, List, [], ◌∷◌, ◌++◌}
use qemu_rust_risc_v.Uart.Defs.{Uart, rhr, thr, read8, write8, has_input}
use mathlib.Core.List.{append_assoc, append-nil}

pub data Event : Type 0 where
  receive : ℕ → Event
  read : ℕ → Event
  write : ℕ → ℕ → Event

-- `uart_buf.push_back(buffer[0])`
unfoldable pub push_input : Uart → ℕ → Uart
push_input u b = record u { input_buffer = u.input_buffer ++ (b ∷ []) }

unfoldable pub step : Uart → Event → Uart
unfolding push_input
step u (receive b) = push_input u b
step u (read offset) = (read8 u offset).0
step u (write offset value) = write8 u offset value

unfoldable pub run : Uart → List Event → Uart
unfolding step
run u [] = u
run u (e ∷ es) = run (step u e) es

-- The bytes that came in, those written to THR, and those that reads of RHR took from a buffer that
-- was not empty.
abbrev pub received : List Event → List ℕ
received [] = []
received (receive b ∷ es) = b ∷ received es
received (read offset ∷ es) = received es
received (write offset value ∷ es) = received es

abbrev pub sent : List Event → List ℕ
sent [] = []
sent (receive b ∷ es) = sent es
sent (read offset ∷ es) = sent es
sent (write offset value ∷ es) = if offset == thr then value ∷ sent es else sent es

abbrev pub popped : Uart → Event → List ℕ
popped u (read offset) =
    if (offset == rhr) && has_input u.input_buffer then (read8 u offset).1 ∷ [] else []
popped u _ = []

unfoldable pub taken : Uart → List Event → List ℕ
taken u [] = []
taken u (e ∷ es) = popped u e ++ taken (step u e) es

-- One access pops at most the head of the buffer.
read_input :
    (u : Uart) (offset : ℕ)
    → u.input_buffer ≡ popped u (read offset) ++ (read8 u offset).0.input_buffer
unfolding read8
read_input u offset = ground arith

write_input : (u : Uart) (offset value : ℕ) → (write8 u offset value).input_buffer ≡ u.input_buffer
unfolding write8
write_input u offset value = ground arith

write_stdout :
    (u : Uart) (offset value : ℕ)
    → (write8 u offset value).stdout
      ≡ (if offset == thr then u.stdout ++ (value ∷ []) else u.stdout)
unfolding write8
write_stdout u offset value = ground arith

read_stdout : (u : Uart) (offset : ℕ) → (read8 u offset).0.stdout ≡ u.stdout
unfolding read8
read_stdout u offset = ground arith

conserved :
    (u : Uart) (es : List Event)
    → u.input_buffer ++ received es ≡ taken u es ++ (run u es).input_buffer
unfolding run taken
conserved u [] = append-nil u.input_buffer
conserved u (receive b ∷ es) =
    sym (append_assoc u.input_buffer (b ∷ []) (received es)) ∙ conserved (push_input u b) es
conserved u (read offset ∷ es) =
    let d = (read8 u offset).0 in
    ap (◌++ received es) (read_input u offset)
    ∙ append_assoc (popped u (read offset)) d.input_buffer (received es)
    ∙ ap (popped u (read offset) ++◌) (conserved d es)
    ∙ sym (append_assoc (popped u (read offset)) (taken d es) (run d es).input_buffer)
conserved u (write offset value ∷ es) =
    let d = write8 u offset value in
    ap (◌++ received es) (sym (write_input u offset value)) ∙ conserved d es

-- An abstract queue under the same events: bytes that come in are put at its end; a read of RHR gives
-- its first byte and drops it, or gives 0 where the queue is empty; nothing else changes it.
abbrev pub front : List ℕ → ℕ
front [] = 0
front (b ∷ bs) = b

abbrev pub others : List ℕ → List ℕ
others [] = []
others (b ∷ bs) = bs

abbrev pub queue_step : List ℕ → Event → List ℕ
queue_step q (receive b) = q ++ (b ∷ [])
queue_step q (read offset) = if offset == rhr then others q else q
queue_step q (write offset value) = q

abbrev pub queue_reply : List ℕ → Event → List ℕ
queue_reply q (read offset) = if offset == rhr then front q ∷ [] else []
queue_reply q e = []

abbrev pub queue_run : List ℕ → List Event → List ℕ
queue_run q [] = q
queue_run q (e ∷ es) = queue_run (queue_step q e) es

abbrev pub queue_replies : List ℕ → List Event → List ℕ
queue_replies q [] = []
queue_replies q (e ∷ es) = queue_reply q e ++ queue_replies (queue_step q e) es

-- What the reads of RHR return, also those on an empty buffer.
abbrev pub reply : Uart → Event → List ℕ
reply u (read offset) = if offset == rhr then (read8 u offset).1 ∷ [] else []
reply u e = []

unfoldable pub replies : Uart → List Event → List ℕ
replies u [] = []
replies u (e ∷ es) = reply u e ++ replies (step u e) es

step_lem : (u : Uart) (e : Event) → (step u e).input_buffer ≡ queue_step u.input_buffer e
unfolding step push_input read8
step_lem u (receive b) = refl
step_lem u (read offset) = ground arith
step_lem u (write offset value) = write_input u offset value

reply_lem : (u : Uart) (e : Event) → reply u e ≡ queue_reply u.input_buffer e
unfolding read8
reply_lem u (receive b) = refl
reply_lem u (read offset) = ground arith
reply_lem u (write offset value) = refl

buffer_run : (u : Uart) (es : List Event) → (run u es).input_buffer ≡ queue_run u.input_buffer es
unfolding run
buffer_run u [] = refl
buffer_run u (e ∷ es) = buffer_run (step u e) es ∙ ap (λ q. queue_run q es) (step_lem u e)

replies_lem : (u : Uart) (es : List Event) → replies u es ≡ queue_replies u.input_buffer es
unfolding replies
replies_lem u [] = refl
replies_lem u (e ∷ es) =
    ap (◌++ replies (step u e) es) (reply_lem u e)
    ∙ ap (queue_reply u.input_buffer e ++◌)
        (replies_lem (step u e) es ∙ ap (λ q. queue_replies q es) (step_lem u e))

-- Under any sequence of events, all reads of RHR return what the abstract queue that starts with the
-- input buffer gives, which is 0 where it is empty, and the input buffer ends as the queue does. The
-- bytes in the buffer at first followed by those that came in are the bytes that reads of RHR took
-- from a buffer that was not empty followed by those still in the buffer.
pub input_run :
    (u : Uart) (es : List Event)
    → (replies u es ≡ queue_replies u.input_buffer es)
      × ((run u es).input_buffer ≡ queue_run u.input_buffer es)
      × (u.input_buffer ++ received es ≡ taken u es ++ (run u es).input_buffer)
input_run u es = (replies_lem u es, buffer_run u es, conserved u es)

-- Under any sequence of events, standard output grows by the bytes written to THR, in order.
pub stdout_run : (u : Uart) (es : List Event) → (run u es).stdout ≡ u.stdout ++ sent es
unfolding run
stdout_run u [] = sym (append-nil u.stdout)
stdout_run u (receive b ∷ es) = stdout_run (push_input u b) es
stdout_run u (read offset ∷ es) =
    stdout_run (read8 u offset).0 es ∙ ap (◌++ sent es) (read_stdout u offset)
stdout_run u (write offset value ∷ es) =
    stdout_run (write8 u offset value) es
    ∙ ap (◌++ sent es) (write_stdout u offset value)
    ∙ if-cases (λ v. v ++ sent es ≡ u.stdout ++ sent (write offset value ∷ es)) (offset == thr)
        (λ e. append_assoc u.stdout (value ∷ []) (sent es) ∙ rw e refl) (λ e. rw e refl)
