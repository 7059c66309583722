-- ===== src/Uart/Panic.antt =====
-- src/uart.rs: the output buffer and the search for the messages of the kernel in it.
use qemu_rust_risc_v.Prelude.{ℕ, ◌≤◌, ◌≡◌, refl, sym, ap, ◌∙◌, arith, true}
use qemu_rust_risc_v.Prelude.{
  zero, suc, ltb, if◌then◌else◌, if-cases, List, [], ◌∷◌, ◌++◌, length, drop, take, length-drop,
  length-append,
}
use qemu_rust_risc_v.Prelude.{◌⊎◌, inl, inr, ==_refl, Bool-cases, ltb→lt, subst}
use qemu_rust_risc_v.Uart.Defs.{
  Uart, new, write_thr, push_output, is_text, is_panic, contains, starts_with,
}
use qemu_rust_risc_v.Uart.Defs.{upper_panic, lower_panic, not_syncing}
use mathlib.Core.List.{append_assoc, append-nil}

starts_with_self : (p : List ℕ) → starts_with p p ≡ true
unfolding starts_with
starts_with_self [] = refl
starts_with_self (x ∷ xs) = rw (==_refl x) (starts_with_self xs)

contains_self : (p : List ℕ) → contains p p ≡ true
unfolding contains starts_with
contains_self [] = refl
contains_self (x ∷ xs) = ground (arith, starts_with_self (x ∷ xs))

contains-append : (ys p : List ℕ) → contains (ys ++ p) p ≡ true
unfolding contains
contains-append [] p = contains_self p
contains-append (y ∷ ys) p = ground (arith, contains-append ys p)

tail : List ℕ → List ℕ
tail [] = []
tail (x ∷ xs) = xs

-- A short enough ending of a text is an ending of what is left of the text.
ending :
    (pre text xs p : List ℕ)
    → pre ++ text ≡ xs ++ p
    → length p ≤ length text
    → (ys : List ℕ) × (text ≡ ys ++ p)
unfolding tail
ending [] text xs p h short = (xs, h)
ending (c ∷ pre) text [] p h short =
    absurd (omega (arith, ap length h, length-append pre text, short))
ending (c ∷ pre) text (x ∷ xs) p h short = ending pre text xs p (ap tail h) short

-- The buffer is an ending of the text printed so far: all of it, or at least 1025 bytes.
pub record Window (buffer printed : List ℕ) : Type 0 where
  pub dropped : List ℕ
  pub split : dropped ++ buffer ≡ printed
  pub wide : (dropped ≡ []) ⊎ (1025 ≤ length buffer)
  pub bounded : length buffer ≤ 2048

take-drop : (n : ℕ) (xs : List ℕ) → take n xs ++ drop n xs ≡ xs
take-drop zero xs = refl
take-drop (suc n) [] = refl
take-drop (suc n) (x ∷ xs) = ap (x ∷◌) (take-drop n xs)

push-Window :
    (buffer printed : List ℕ) (v : ℕ)
    → Window buffer printed
    → Window (push_output buffer v) (printed ++ (v ∷ []))
unfolding push_output
push-Window buffer printed v w =
    let pushed = buffer ++ (v ∷ []) in
    let whole : w.dropped ++ pushed ≡ printed ++ (v ∷ []) =
      sym (append_assoc w.dropped buffer (v ∷ [])) ∙ ap (◌++ (v ∷ [])) w.split in
    if-cases (λ b. Window b (printed ++ (v ∷ []))) (ltb 2048 (length pushed))
      (λ e. record {
        dropped = w.dropped ++ take 1024 pushed;
        split =
            append_assoc w.dropped (take 1024 pushed) (drop 1024 pushed)
            ∙ ap (w.dropped ++◌) (take-drop 1024 pushed)
            ∙ whole;
        wide = inr (omega (arith, ltb→lt 2048 (length pushed) e, length-drop 1024 pushed));
        bounded = omega (arith, length-drop 1024 pushed, length-append buffer (v ∷ []), w.bounded);
      })
      (λ e. record {
        dropped = w.dropped;
        split = whole;
        wide = elim w.wide [
          | inl d ↦ inl d
          | inr long ↦ inr (omega (arith, length-append buffer (v ∷ []), long))
        ];
        bounded = ground arith;
      })

-- A text that ends in a keyword ends in it in the window too.
Window-ending :
    (buffer printed xs p : List ℕ)
    → Window buffer printed
    → printed ≡ xs ++ p
    → length p ≤ 1025
    → (ys : List ℕ) × (buffer ≡ ys ++ p)
Window-ending buffer printed xs p w h short = elim w.wide [
  | inl d ↦ (xs, sym (ap (◌++ buffer) d) ∙ w.split ∙ h)
  | inr long ↦ ending w.dropped buffer xs p (w.split ∙ h) (omega (arith, long, short))
]

-- The messages that the detector looks for.
pub data Keyword : List ℕ → Type 0 where
  upper : Keyword upper_panic
  lower : Keyword lower_panic
  syncing : Keyword not_syncing

Keyword-short : (p : List ℕ) → Keyword p → length p ≤ 1025
Keyword-short _ upper = omega arith
Keyword-short _ lower = omega arith
Keyword-short _ syncing = omega arith

Keyword-is_panic : (ys p : List ℕ) → Keyword p → is_panic (ys ++ p) ≡ true
unfolding is_panic
Keyword-is_panic ys _ upper = ground (arith, contains-append ys upper_panic)
Keyword-is_panic ys _ lower = ground (arith, contains-append ys lower_panic)
Keyword-is_panic ys _ syncing = ground (arith, contains-append ys not_syncing)

-- The bytes sent one after another, and those of them that are text.
unfoldable pub send_all : Uart → List ℕ → Uart
send_all u [] = u
send_all u (b ∷ bs) = send_all (write_thr u b) bs

abbrev pub texts : List ℕ → List ℕ
texts [] = []
texts (b ∷ bs) = if is_text b then b ∷ texts bs else texts bs

write-Window :
    (u : Uart) (v : ℕ) (printed : List ℕ)
    → Window u.output_buffer printed
    → Window (write_thr u v).output_buffer (printed ++ texts (v ∷ []))
unfolding write_thr
write-Window u v printed w = elim (Bool-cases (is_text v)) [
  | inl e ↦ rw e (push-Window u.output_buffer printed v w)
  | inr e ↦ rw e (subst (Window u.output_buffer) (sym (append-nil printed)) w)
]

-- Detection is latched.
latched : (u : Uart) (bs : List ℕ) → u.panic_detected ≡ true → (send_all u bs).panic_detected ≡ true
unfolding send_all write_thr
latched u [] h = h
latched u (b ∷ bs) h = latched (write_thr u b) bs (ground (arith, h))

texts_cons : (b : ℕ) (bs : List ℕ) → texts (b ∷ bs) ≡ texts (b ∷ []) ++ texts bs
texts_cons b bs = ground arith

send_all-Window :
    (u : Uart) (bs printed : List ℕ)
    → Window u.output_buffer printed
    → Window (send_all u bs).output_buffer (printed ++ texts bs)
unfolding send_all
send_all-Window u [] printed w = subst (Window u.output_buffer) (sym (append-nil printed)) w
send_all-Window u (b ∷ bs) printed w =
    let d = write_thr u b in
    subst (Window (send_all d bs).output_buffer)
      (append_assoc printed (texts (b ∷ [])) (texts bs) ∙ ap (printed ++◌) (sym (texts_cons b bs)))
      (send_all-Window d bs (printed ++ texts (b ∷ [])) (write-Window u b printed w))

send_all-append :
    (u : Uart) (before bs : List ℕ) → send_all u (before ++ bs) ≡ send_all (send_all u before) bs
unfolding send_all
send_all-append u [] bs = refl
send_all-append u (a ∷ before) bs = send_all-append (write_thr u a) before bs

empty-Window : Window [] []
empty-Window = record { dropped = []; split = refl; wide = inl refl; bounded = omega arith }

-- From a new UART on, whatever is sent: the output buffer is an ending of the text sent, all of it
-- or at least 1025 bytes, and never longer than 2048 bytes.
pub output-Window : (bs : List ℕ) → Window (send_all new bs).output_buffer (texts bs)
output-Window bs = send_all-Window new bs [] empty-Window

detects :
    (u : Uart) (printed xs p : List ℕ) (v : ℕ)
    → Window u.output_buffer printed
    → Keyword p
    → is_text v ≡ true
    → printed ++ (v ∷ []) ≡ xs ++ p
    → (write_thr u v).panic_detected ≡ true
unfolding write_thr
detects u printed xs p v w k text h =
    let pushed = push_output u.output_buffer v in
    let found =
      Window-ending pushed (printed ++ (v ∷ [])) xs p (push-Window u.output_buffer printed v w) h
        (Keyword-short p k) in
    let panics : is_panic pushed ≡ true = ap is_panic found.1 ∙ Keyword-is_panic found.0 p k in
    ground (arith, text, panics)

-- From a new UART on, if a byte of text completes one of the three keywords in the text sent so
-- far, the panic is detected, and stays detected whatever is sent after it.
pub panic_lem :
    (before cs xs p : List ℕ) (v : ℕ)
    → Keyword p
    → is_text v ≡ true
    → texts before ++ (v ∷ []) ≡ xs ++ p
    → (send_all new (before ++ (v ∷ cs))).panic_detected ≡ true
panic_lem before cs xs p v k text h =
    let u = send_all new before in
    ap (λ d. d.panic_detected) (send_all-append new before (v ∷ cs))
    ∙ unfold send_all in
      latched (write_thr u v) cs (detects u (texts before) xs p v (output-Window before) k text h)
