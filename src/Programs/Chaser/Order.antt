-- ===== src/Programs/Chaser/Order.antt =====
-- The numbers of lab4/lab4/tasks/mutex_chaser/mutex_chaser.c, when the rounds come in order.
use fundamental_of_emb.Common.{
  ℕ, zero, suc, ◌<◌, ◌≤◌, ◌≡◌, refl, ◌∙◌, Bool, true, false, List, [], ◌∷◌, ◌++◌, ltb, ◌==◌,
  if◌then◌else◌, arith, fill_lem,
}
use fundamental_of_emb.Programs.Chaser.{
  Chaser, fun1, fun2, fun3, fun4, init_val, result_val, Chase, start, chase, report,
}

-- The function has a round left, and the one that has to come before it has done this mutex.
abbrev pub InTurn : Chaser → Chase → Type 0
InTurn fun1 s = s.cur_mutex fun1 < 32
InTurn fun2 s = s.cur_mutex fun2 < s.cur_mutex fun1
InTurn fun3 s = s.cur_mutex fun3 < s.cur_mutex fun2
InTurn fun4 s = s.cur_mutex fun4 < s.cur_mutex fun3

-- The states that rounds in order lead to.
pub data Chases (old : ℕ → ℕ) : Chase → Type 0 where
  starts : Chases old (start old)
  goes : {s : Chase} → Chases old s → (t : Chaser) → InTurn t s → Chases old (chase t s)

-- The number of a mutex below 32, from the four counters.
abbrev pub number : Chase → ℕ → ℕ
number s m =
    if m == 0
    then 2
    else if ltb m (s.cur_mutex fun4)
    then 624
    else if ltb m (s.cur_mutex fun3)
    then 48
    else if ltb m (s.cur_mutex fun2)
    then 55
    else if ltb m (s.cur_mutex fun1)
    then 5
    else 2

pub record Counted (s : Chase) : Type 0 where
  pub first : s.cur_mutex fun1 ≤ 32
  pub second : s.cur_mutex fun2 ≤ s.cur_mutex fun1
  pub third : s.cur_mutex fun3 ≤ s.cur_mutex fun2
  pub fourth : s.cur_mutex fun4 ≤ s.cur_mutex fun3
  pub begun : 0 < s.cur_mutex fun4
  pub numbers : (m : ℕ) → m < 32 → s.mutex_val m ≡ number s m

start-Counted : (old : ℕ → ℕ) → Counted (start old)
unfolding start
start-Counted old = record {
  first = omega arith;
  second = omega arith;
  third = omega arith;
  fourth = omega arith;
  begun = omega arith;
  numbers = λ m lt. fill_lem 32 (λ i. init_val) old m ∙ ground arith;
}

chase-Counted : (t : Chaser) (s : Chase) → Counted s → InTurn t s → Counted (chase t s)
unfolding chase
chase-Counted fun1 s c turn = record {
  first = omega (arith, turn);
  second = omega (arith, c.second);
  third = c.third;
  fourth = c.fourth;
  begun = c.begun;
  numbers = λ m lt. ground (
    arith,
    c.numbers m lt,
    c.numbers (s.cur_mutex fun1),
    c.second,
    c.third,
    c.fourth,
    c.begun,
    turn,
  );
}
chase-Counted fun2 s c turn = record {
  first = c.first;
  second = omega (arith, turn);
  third = omega (arith, c.third);
  fourth = c.fourth;
  begun = c.begun;
  numbers = λ m lt. ground (arith, c.numbers m lt, c.first, c.third, c.fourth, c.begun, turn);
}
chase-Counted fun3 s c turn = record {
  first = c.first;
  second = c.second;
  third = omega (arith, turn);
  fourth = omega (arith, c.fourth);
  begun = c.begun;
  numbers = λ m lt. ground (arith, c.numbers m lt, c.first, c.second, c.fourth, c.begun, turn);
}
chase-Counted fun4 s c turn = record {
  first = c.first;
  second = c.second;
  third = c.third;
  fourth = omega (arith, turn);
  begun = omega arith;
  numbers = λ m lt. ground (arith, c.numbers m lt, c.first, c.second, c.third, c.begun, turn);
}

Chases-Counted : {old : ℕ → ℕ} {s : Chase} → Chases old s → Counted s
Chases-Counted {old} starts = start-Counted old
Chases-Counted (goes {s} r t turn) = chase-Counted t s (Chases-Counted r) turn

-- All the tests but the first of `n`.
abbrev pub all_but_first : ℕ → List Bool
all_but_first zero = []
all_but_first (suc zero) = false ∷ []
all_but_first (suc (suc n)) = all_but_first (suc n) ++ (true ∷ [])

report_lem :
    (n : ℕ) (vals : ℕ → ℕ)
    → n ≤ 32
    → ((m : ℕ) → m < 32 → vals m ≡ (if m == 0 then 2 else 624))
    → report n vals ≡ all_but_first n
unfolding report
report_lem zero vals le h = refl
report_lem (suc zero) vals le h = rw (h 0 (omega arith)) refl
report_lem (suc (suc n)) vals le h =
    let value : vals (suc n) ≡ 624 = h (suc n) (omega (arith, le)) ∙ ground arith in
    rw (value, report_lem (suc n) vals (omega (arith, le)) h) refl

-- When the rounds come in order, for each mutex first fun1, then fun2, fun3 and fun4, then once fun4
-- has done its 31 rounds the mutexes 1 to 31 have the result value 624, but the mutex 0, which no
-- round is about, has 2 still: the report of fun4 says no to the mutex 0, and yes to the others.
pub report_after :
    {old : ℕ → ℕ} {s : Chase}
    → Chases old s
    → s.cur_mutex fun4 ≡ 32
    → (report 32 s.mutex_val ≡ all_but_first 32)
      × ((m : ℕ) → m < 32 → s.mutex_val m ≡ (if m == 0 then init_val else result_val))
report_after {s} r done =
    let c = Chases-Counted r in
    let final : (m : ℕ) → m < 32 → s.mutex_val m ≡ (if m == 0 then 2 else 624) =
      λ m lt. c.numbers m lt ∙ ground (arith, done) in
    (report_lem 32 s.mutex_val (omega arith) final, final)
