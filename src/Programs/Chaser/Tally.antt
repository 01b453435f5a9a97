-- ===== src/Programs/Chaser/Tally.antt =====
-- Which functions of lab4/lab4/tasks/mutex_chaser/mutex_chaser.c have changed the number of a mutex.
use fundamental_of_emb.Common.{
  ℕ, ◌+◌, ◌<◌, ◌≡◌, sym, ap, ◌∙◌, Bool, true, false, ◌&&◌, ◌||◌, some, List, [], ◌∷◌, update, ltb,
  ◌==◌, ==_iff, if◌then◌else◌, arith, Bool-cases, inl, inr,
}
use fundamental_of_emb.Programs.Chaser.{Chaser, fun1, fun2, fun3, fun4, init_val, operate}
use fundamental_of_emb.Programs.Chaser.World.{Point, storing, unlocking, Local, entered, chaser_of}

abbrev pub task_of : Chaser → ℕ
task_of fun1 = 1
task_of fun2 = 2
task_of fun3 = 3
task_of fun4 = 4

pub task_of_lem : (t : ℕ) (f : Chaser) → chaser_of t ≡ some f → task_of f ≡ t
task_of_lem t fun1 e = ground (arith, e)
task_of_lem t fun2 e = ground (arith, e)
task_of_lem t fun3 e = ground (arith, e)
task_of_lem t fun4 e = ground (arith, e)

abbrev is_unlocking : Point → Bool
is_unlocking unlocking = true
is_unlocking _ = false

-- A function at this point has changed the number of mutex `i`, which is not 0.
abbrev pub passed_at : Point → ℕ → ℕ → Bool
passed_at p m i = ltb i m || (is_unlocking p && m == i)

abbrev pub passed : Local → ℕ → Bool
passed l i = passed_at l.at l.cur_mutex i

-- The number after some operations, the last one first.
abbrev pub number_of : List Chaser → ℕ
number_of [] = init_val
number_of (f ∷ fs) = operate f (number_of fs)

abbrev pub times : Chaser → List Chaser → ℕ
times f [] = 0
times f (g ∷ gs) = (if task_of g == task_of f then 1 else 0) + times f gs

-- The number of every mutex is what some order of operations gives, and each function has done its
-- operation once on the mutexes that it has passed, and not on the others.
pub record Tally (vals : ℕ → ℕ) (locals : ℕ → Local) : Type 0 where
  pub orders : ℕ → List Chaser
  pub numbers : (i : ℕ) → i < 32 → vals i ≡ number_of (orders i)
  pub once :
      (i : ℕ)
      → 0 < i
      → (f : Chaser) → times f (orders i) ≡ (if passed (locals (task_of f)) i then 1 else 0)

-- A step of a task that passes no mutex.
pub update-Tally :
    {vals : ℕ → ℕ} {locals : ℕ → Local} (t : ℕ) (l : Local)
    → ((i : ℕ) → passed l i ≡ passed (locals t) i)
    → Tally vals locals
    → Tally vals (update locals t l)
update-Tally {vals} {locals} t l same y = record {
  orders = y.orders;
  numbers = y.numbers;
  once = λ i lt f. elim (Bool-cases (t == task_of f)) [
    | inl e ↦
        let at : passed (locals (task_of f)) i ≡ passed l i =
          ap (λ x. passed (locals x) i) (sym ((==_iff t (task_of f)).0 e)) ∙ sym (same i) in
        rw e (y.once i lt f ∙ ap (λ b. if b then 1 else 0) at)
    | inr ne ↦ rw ne (y.once i lt f)
  ];
}

-- The store of a function.
pub store-Tally :
    {vals : ℕ → ℕ} {locals : ℕ → Local} (g : Chaser) (t m number : ℕ)
    → task_of g ≡ t
    → (locals t).at ≡ storing number
    → (locals t).cur_mutex ≡ m
    → number ≡ vals m
    → Tally vals locals
    → Tally
        (update vals m (operate g number))
        (update locals t (record { at = unlocking; cur_mutex = m }))
store-Tally {vals} {locals} g t m number own ep em loaded y = record {
  orders = update y.orders m (g ∷ y.orders m);
  numbers = λ i lt. elim (Bool-cases (m == i)) [
    | inl e ↦
        let at : m ≡ i = (==_iff m i).0 e in
        rw e (
          ap (operate g)
            (loaded ∙ ap vals at ∙ y.numbers i lt ∙ ap (λ x. number_of (y.orders x)) (sym at)))
    | inr ne ↦ rw ne (y.numbers i lt)
  ];
  once = λ i lt f. elim (Bool-cases (t == task_of f)) [
    | inl mine ↦ own_once i lt f ((==_iff t (task_of f)).0 mine)
    | inr other ↦
        let not_mine : (task_of g == task_of f) ≡ false = ap (λ x. x == task_of f) own ∙ other in
        elim (Bool-cases (m == i)) [
          | inl e ↦
              let at : m ≡ i = (==_iff m i).0 e in
              let drop : 0 + times f (y.orders m) ≡ times f (y.orders m) = omega arith in
              rw (other, e, not_mine) (drop ∙ ap (λ x. times f (y.orders x)) at ∙ y.once i lt f)
          | inr ne ↦ rw (other, ne) (y.once i lt f)
        ]
  ];
}
  where
    before : (i : ℕ) → passed (locals t) i ≡ ltb i m
    before i =
        ap (λ p. passed_at p (locals t).cur_mutex i) ep
        ∙ ap (λ x. passed_at (storing number) x i) em
        ∙ ground arith

    counted :
        (i : ℕ)
        → 0 < i
        → (f : Chaser) → t ≡ task_of f
        → times f (y.orders i) ≡ (if ltb i m then 1 else 0)
    counted i lt f mine =
        y.once i lt f
        ∙ ap (λ x. if passed (locals x) i then 1 else 0) (sym mine)
        ∙ ap (λ b. if b then 1 else 0) (before i)

    own_once :
        (i : ℕ)
        → 0 < i
        → (f : Chaser) → t ≡ task_of f
        → times f (update y.orders m (g ∷ y.orders m) i) ≡ (
            if passed (update locals t (record { at = unlocking; cur_mutex = m }) (task_of f)) i
            then 1
            else 0)
    own_once i lt f mine =
        let self : (t == task_of f) ≡ true = (==_iff t (task_of f)).1 mine in
        let same : (task_of g == task_of f) ≡ true = ap (λ x. x == task_of f) own ∙ self in
        elim (Bool-cases (m == i)) [
          | inl e ↦
              let at : m ≡ i = (==_iff m i).0 e in
              let none_yet : times f (y.orders m) ≡ 0 =
                ap (λ x. times f (y.orders x)) at ∙ counted i lt f mine ∙ ground arith in
              rw (self, e, same, none_yet) (ground arith)
          | inr ne ↦ rw (self, ne) (counted i lt f mine ∙ ground arith)
        ]

-- Where the functions start.
pub start-Tally :
    {vals : ℕ → ℕ} {locals : ℕ → Local}
    → ((i : ℕ) → i < 32 → vals i ≡ init_val)
    → ((t : ℕ) → locals t ≡ entered)
    → Tally vals locals
start-Tally {vals} {locals} first fresh = record {
  orders = λ i. [];
  numbers = first;
  once = λ i lt f.
      let at : passed (locals (task_of f)) i ≡ passed entered i =
        ap (λ l. passed l i) (fresh (task_of f)) in
      let not_yet : passed entered i ≡ false = ground arith in
      sym (ap (λ b. if b then 1 else 0) (at ∙ not_yet));
}
