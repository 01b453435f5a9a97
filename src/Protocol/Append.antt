-- ===== src/Protocol/Append.antt =====
-- A task at the end of a sleep queue (lab4/lab4/kernel/lock/mutex.c, lab4/lab4/kernel/device.c).
use fundamental_of_emb.Common.{
  ℕ, zero, suc, ◌<◌, ◌≡◌, ◌≢◌, refl, true, false, Option, none, some, List, [], ◌∷◌, ◌++◌, length,
  arith,
}
use fundamental_of_emb.RunQueue.{Ptr}
use fundamental_of_emb.Kernel.{Tcb}
use fundamental_of_emb.Sleep.{last_sleeper, link, append_sleeper, queue_fuel}
use fundamental_of_emb.Protocol.Defs.{contains, Chain, All, Distinct}
use fundamental_of_emb.Protocol.Lists.{contains-All, Chain-nil, Chain-cons}

-- `c` linked behind `l`.
abbrev linked : (ℕ → Tcb) → ℕ → ℕ → ℕ → Tcb
linked s l c = link (link s (some l) (some c)) (some c) none

-- The search ends at a member, behind which `c` completes the queue.
record Last (s : ℕ → Tcb) (c : ℕ) (head : Ptr) (xs : List ℕ) (o : Option ℕ) : Type 0 where
  last : ℕ
  ends : o ≡ some last
  member : contains last xs ≡ true
  chain : Chain (linked s last c) head (xs ++ c ∷ [])

last_sleeper_lem :
    (fuel : ℕ) (s : ℕ → Tcb) (c x : ℕ) (xs : List ℕ)
    → length xs < fuel
    → Chain s (s x).sleep_queue xs
    → Distinct (x ∷ xs)
    → All (λ t. t ≢ c) (x ∷ xs)
    → Last s c (some x) (x ∷ xs) (last_sleeper fuel s x)
unfolding last_sleeper contains
last_sleeper_lem zero s c x xs f h d ne = absurd (omega arith)
last_sleeper_lem (suc fuel) s c x [] f h d ne =
    let e = Chain-nil s (s x).sleep_queue h in
    let to_c : (linked s x c x).sleep_queue ≡ some c = ground (arith, ne.0) in
    let ends : (linked s x c c).sleep_queue ≡ none = ground arith in
    record {
      last = x;
      ends = rw (e, last_sleeper);
      member = ground arith;
      chain = (refl, rw to_c (refl, rw ends tt));
    }
last_sleeper_lem (suc fuel) s c x (y ∷ ys) f h d ne =
    let (e, rest) = Chain-cons s (s x).sleep_queue y ys h in
    let ih = last_sleeper_lem fuel s c y ys (omega arith) rest d.1 ne.1 in
    let apart = contains-All (λ t. x ≢ t) ih.last (y ∷ ys) d.0 ih.member in
    let kept : (linked s ih.last c x).sleep_queue ≡ some y = ground (arith, e, ne.0, apart) in
    record {
      last = ih.last;
      ends = rw (e, last_sleeper) ih.ends;
      member = ground (arith, ih.member);
      chain = (refl, rw kept ih.chain);
    }

-- What else `append_sleeper` leaves alone: all fields but the links of members and of `c`.
pub record Appended (s : ℕ → Tcb) (c : ℕ) (xs : List ℕ) (o : Option (Ptr × (ℕ → Tcb)))
    : Type 0 where
  pub head : Ptr
  pub blocks : ℕ → Tcb
  pub result : o ≡ some (head, blocks)
  pub chain : Chain blocks head (xs ++ c ∷ [])
  pub others : (t : ℕ) → c ≢ t → contains t xs ≡ false → (blocks t).sleep_queue ≡ (s t).sleep_queue
  pub fields : (t : ℕ) → blocks t ≡ record (s t) { sleep_queue = (blocks t).sleep_queue }

ends : (s : ℕ → Tcb) (c : ℕ) → (link s (some c) none c).sleep_queue ≡ none
ends s c = ground arith

linked_fields :
    (s : ℕ → Tcb) (l c t : ℕ)
    → linked s l c t ≡ record (s t) { sleep_queue = (linked s l c t).sleep_queue }
linked_fields s l c t = ground arith

-- A task that is not in a sleep queue goes to its end, and the traversal stops.
pub append_sleeper_lem :
    (s : ℕ → Tcb) (p : Ptr) (xs : List ℕ) (c : ℕ)
    → length xs < queue_fuel
    → Chain s p xs
    → Distinct xs
    → All (λ t. t ≢ c) xs
    → Appended s c xs (append_sleeper s p (some c))
unfolding append_sleeper
append_sleeper_lem s none [] c f h d ne = record {
  head = some c;
  blocks = link s (some c) none;
  result = refl;
  chain = (refl, rw (ends s c) tt);
  others = λ t n m. ground arith;
  fields = λ t. ground arith;
}
append_sleeper_lem s none (x ∷ xs) c f h d ne = absurd h
append_sleeper_lem s (some i) [] c f h d ne = absurd h
append_sleeper_lem s (some i) (x ∷ xs) c f h d ne = go i h.0
  where
    l : Last s c (some x) (x ∷ xs) (last_sleeper queue_fuel s x)
    l = last_sleeper_lem queue_fuel s c x xs (omega arith) h.1 d ne

    go : (i : ℕ) → i ≡ x → Appended s c (x ∷ xs) (append_sleeper s (some i) (some c))
    go i e = record {
      head = some x;
      blocks = linked s l.last c;
      result = rw (e, l.ends);
      chain = l.chain;
      others = λ t n m. ground (arith, l.member, n);
      fields = λ t. linked_fields s l.last c t;
    }
