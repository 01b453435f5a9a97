-- ===== src/Ready.antt =====
-- What lab4/lab4/kernel/include/sched.h promises of the run queue: a table with at most one task
-- for each priority, from which the most urgent one can be chosen. There are no bitmaps.
use fundamental_of_emb.Common.{
  ℕ, zero, suc, ◌+◌, ◌<◌, Option, none, some, List, [], ◌∷◌, update, is_some, ◌==◌, if◌then◌else◌,
}

-- The calls of a client.
pub data Op : Type 0 where
  add : ℕ → ℕ → Op
  remove : ℕ → Op
  highest : Op

pub data Reply : Type 0 where
  done : Reply
  removed : Option ℕ → Reply
  prio : ℕ → Reply

abbrev pub Table : Type 0
Table = ℕ → Option ℕ

abbrev pub empty : Table
empty p = none

abbrev pub remove_at : Table → ℕ → Table
remove_at r p = if p == 63 then r else update r p none

-- The first of the `n` priorities from `p` on that holds a task.
unfoldable pub first_from : ℕ → ℕ → Table → Option ℕ
first_from zero p r = none
first_from (suc n) p r = let rest = first_from n (p + 1) r in if is_some (r p) then some p else rest

abbrev pub or_zero : Option ℕ → ℕ
or_zero none = 0
or_zero (some p) = p

-- The most urgent priority of the 64, or 0 if there is none.
unfoldable pub highest_of : Table → ℕ
highest_of r = or_zero (first_from 64 0 r)

unfoldable pub run : Table → List Op → List Reply
run r [] = []
run r (add t p ∷ ops) = done ∷ run (update r p (some t)) ops
run r (remove p ∷ ops) = removed (r p) ∷ run (remove_at r p) ops
run r (highest ∷ ops) = prio (highest_of r) ∷ run r ops

-- Every priority in the script is one of the 64.
abbrev pub InRange : List Op → Type 0
InRange [] = Unit
InRange (add t p ∷ ops) = (p < 64) × InRange ops
InRange (remove p ∷ ops) = (p < 64) × InRange ops
InRange (highest ∷ ops) = InRange ops
