-- ===== src/Time.antt =====
-- The time calls: lab4/lab4/kernel/syscall/time.c, and GET_TIME and SLEEP of
-- Lab 3/lab3-support/kernel/C_SWI_handler.c, where the clock counts units of ten milliseconds.
use fundamental_of_emb.Common.{
  ℕ, zero, suc, ◌+◌, ◌/◌, ◌^◌, ◌<◌, ◌≤◌, ◌≡◌, refl, Option, none, some, ltb, if◌then◌else◌, add32,
  arith, Bool-cases, inl, inr,
}
use fundamental_of_emb.Kernel.{Kernel}

unfoldable pub time_syscall : Kernel → ℕ
time_syscall k = k.timer_count

-- The busy loop `while (timer_count < end_time)`. `clock i` is what the i-th test reads, since the
-- interrupt handler changes the variable meanwhile; the result is the number of tests that held.
unfoldable pub spin : ℕ → ℕ → (ℕ → ℕ) → ℕ → Option ℕ
spin zero i clock end_time = none
spin (suc fuel) i clock end_time =
    let rest = spin fuel (i + 1) clock end_time in if ltb (clock i) end_time then rest else some i

unfoldable pub sleep_syscall : ℕ → ℕ → (ℕ → ℕ) → ℕ → Option ℕ
sleep_syscall fuel timer_count clock millis = spin fuel 0 clock (add32 timer_count millis)

-- Lab 3 adds the millis divided by ten.
unfoldable pub sleep : ℕ → ℕ → (ℕ → ℕ) → ℕ → Option ℕ
sleep fuel timer_count clock millis = spin fuel 0 clock (add32 timer_count (millis / 10))

-- The loop ends at test `last`, the first one that reads `end_time` or more.
pub record EndsAt (clock : ℕ → ℕ) (end_time bound : ℕ) (r : Option ℕ) : Type 0 where
  pub last : ℕ
  pub result : r ≡ some last
  pub in_time : last ≤ bound
  pub reached : end_time ≤ clock last
  pub earlier : (j : ℕ) → j < last → clock j < end_time

spin-EndsAt :
    (fuel i : ℕ) (clock : ℕ → ℕ) (end_time n : ℕ)
    → i ≤ n
    → n < i + fuel
    → end_time ≤ clock n
    → ((j : ℕ) → j < i → clock j < end_time)
    → EndsAt clock end_time n (spin fuel i clock end_time)
unfolding spin
spin-EndsAt zero i clock end_time n lo hi h before = absurd (omega arith)
spin-EndsAt (suc fuel) i clock end_time n lo hi h before =
    elim (Bool-cases (ltb (clock i) end_time)) [
      | inr done ↦ rw done (record {
        last = i;
        result = refl;
        in_time = lo;
        reached = ground arith;
        earlier = before;
      })
      | inl more ↦ rw more (
          spin-EndsAt fuel (i + 1) clock end_time n (ground arith) (omega arith) h
            (λ j lt. ground (arith, before j)))
    ]

-- If the sum of the clock and the millis does not wrap and the clock reaches it at test `n`, then
-- `sleep_syscall` returns after `n` tests at most, at the first one that reads the sum or more.
pub sleep_syscall-EndsAt :
    (fuel timer_count : ℕ) (clock : ℕ → ℕ) (millis n : ℕ)
    → timer_count + millis < 2 ^ 32
    → timer_count + millis ≤ clock n
    → n < fuel
    → EndsAt clock (timer_count + millis) n (sleep_syscall fuel timer_count clock millis)
unfolding sleep_syscall
sleep_syscall-EndsAt fuel timer_count clock millis n fits h enough =
    let e : add32 timer_count millis ≡ timer_count + millis = omega arith in
    rw e (
      spin-EndsAt fuel 0 clock (timer_count + millis) n (omega arith) (omega arith) h
        (λ j lt. absurd (omega arith)))

-- If the sum of the clock and a tenth of the millis, rounded down, does not wrap and the clock
-- reaches it at test `n`, then `SLEEP` of lab 3 returns after `n` tests at most, at the first one
-- that reads the sum or more.
pub sleep-EndsAt :
    (fuel timer_count : ℕ) (clock : ℕ → ℕ) (millis n : ℕ)
    → timer_count + millis / 10 < 2 ^ 32
    → timer_count + millis / 10 ≤ clock n
    → n < fuel
    → EndsAt clock (timer_count + millis / 10) n (sleep fuel timer_count clock millis)
unfolding sleep
sleep-EndsAt fuel timer_count clock millis n fits h enough =
    let e : add32 timer_count (millis / 10) ≡ timer_count + millis / 10 = omega arith in
    rw e (
      spin-EndsAt fuel 0 clock (timer_count + millis / 10) n (omega arith) (omega arith) h
        (λ j lt. absurd (omega arith)))
