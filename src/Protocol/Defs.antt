-- ===== src/Protocol/Defs.antt =====
-- The invariant of the running system.
use fundamental_of_emb.Common.{
  ℕ, zero, suc, ◌+◌, ◌<◌, ◌≡◌, ◌≢◌, Bool, true, false, not, ◌&&◌, none, some, List, [], ◌∷◌, length,
  ltb, leb, ◌==◌, if◌then◌else◌,
}
use fundamental_of_emb.RunQueue.{Ptr}
use fundamental_of_emb.RunQueue.Inv.{IsValid}
use fundamental_of_emb.Kernel.{Kernel, Tcb, Mutex, Resume, nowhere, in_mutex_lock}

-- Where a task is. The idle task, entry 63, is never tracked: it stays in the run queue.
pub data Place : Type 0 where
  absent : Place
  running : Place
  ready : Place
  waiting : (dev : ℕ) → Place

abbrev pub is_running : Place → Bool
is_running running = true
is_running _ = false

abbrev pub is_absent : Place → Bool
is_absent absent = true
is_absent _ = false

abbrev pub is_waiting : ℕ → Place → Bool
is_waiting d (waiting e) = d == e
is_waiting d _ = false

-- The entry of `run_list` for a task at this place.
abbrev pub slot : Place → ℕ → Ptr
slot ready t = some t
slot _ t = none

-- What the state does not store: the place of each task, and each sleep queue as a list.
pub record Ghost : Type 0 where
  pub place : ℕ → Place
  pub queue : ℕ → List ℕ

-- How many of the numbers below `n` pass.
unfoldable pub count : ℕ → (ℕ → Bool) → ℕ
count zero p = 0
count (suc n) p = count n p + (if p n then 1 else 0)

-- The sleep queue that starts at a pointer.
abbrev pub Chain : (ℕ → Tcb) → Ptr → List ℕ → Type 0
Chain s none [] = Unit
Chain s none (x ∷ xs) = ⊥
Chain s (some i) [] = ⊥
Chain s (some i) (x ∷ xs) = (i ≡ x) × Chain s (s x).sleep_queue xs

abbrev pub All : (ℕ → Type 0) → List ℕ → Type 0
All P [] = Unit
All P (x ∷ xs) = P x × All P xs

abbrev pub Distinct : List ℕ → Type 0
Distinct [] = Unit
Distinct (x ∷ xs) = All (λ y. x ≢ y) xs × Distinct xs

unfoldable pub contains : ℕ → List ℕ → Bool
contains t [] = false
contains t (x ∷ xs) = if x == t then true else contains t xs

-- A context that goes straight back to user mode: set, and not behind a wait for a mutex.
abbrev pub is_calm : Resume → Bool
is_calm nowhere = false
is_calm (in_mutex_lock m p) = false
is_calm _ = true

-- A mutex is free, or held by the current task `c`; nobody waits for it.
pub record MutexFine (c : Ptr) (m : Mutex) : Type 0 where
  pub holder : m.holding_tcb ≡ (if m.locked then c else none)
  pub no_sleepers : m.sleep_queue ≡ none
  pub allocated : m.available ≡ true → m.locked ≡ false

-- The run queue holds the idle task and the ready ones, each at its native priority.
pub record Queued (k : Kernel) (g : Ghost) : Type 0 where
  pub valid : IsValid k.run_queue
  pub listed : (t : ℕ) → t < 63 → k.run_queue.run_list t ≡ slot (g.place t) t
  pub idle : k.run_queue.run_list 63 ≡ some 63

-- The tasks 1 to `n` exist; a task that waits is in the sleep queue of its device, and only there.
pub record Placed (n : ℕ) (k : Kernel) (g : Ghost) : Type 0 where
  pub present : (t : ℕ) → t < 63 → is_absent (g.place t) ≡ not (ltb 0 t && leb t n)
  pub chained : (d : ℕ) → d < 4 → Chain k.system_tcb (k.devices d).sleep_queue (g.queue d)
  pub distinct : (d : ℕ) → d < 4 → Distinct (g.queue d)
  pub members : (d : ℕ) → d < 4 → All (λ t. (t < 63) × (g.place t ≡ waiting d)) (g.queue d)
  pub complete :
      (t d : ℕ) → t < 63 → g.place t ≡ waiting d → (d < 4) × (contains t (g.queue d) ≡ true)
  pub sizes : (d : ℕ) → d < 4 → length (g.queue d) ≡ count 63 (λ t. is_waiting d (g.place t))

-- A task that is not current: at its native priority, without a lock, with a calm context.
pub record AtRest (n : ℕ) (t : ℕ) (b : Tcb) : Type 0 where
  pub native : b.native_prio ≡ t
  pub prio : b.cur_prio ≡ t
  pub no_lock : b.holds_lock ≡ 0
  pub calm : is_calm b.context.lr ≡ true

-- Entry `t` of `system_tcb` is in use.
abbrev pub exists : ℕ → ℕ → Bool
exists n t = if t == 63 then true else ltb 0 t && leb t n

-- Between two tasks, when none is current.
pub record Parked (n : ℕ) (k : Kernel) (g : Ghost) : Type 0 where
  pub queued : Queued k g
  pub placed : Placed n k g
  pub nobody : (t : ℕ) → t < 63 → is_running (g.place t) ≡ false
  pub resting : (t : ℕ) → t < 64 → exists n t ≡ true → AtRest n t (k.system_tcb t)
  pub unlocked : (m : ℕ) → m < 32 → MutexFine none (k.gt_mutex m) × ((k.gt_mutex m).locked ≡ false)

-- While task `c` is current.
pub record Inv (n : ℕ) (k : Kernel) (c : ℕ) (g : Ghost) : Type 0 where
  pub queued : Queued k g
  pub placed : Placed n k g
  pub cur : k.cur_tcb ≡ some c
  pub in_use : (c < 64) × (exists n c ≡ true)
  pub only : (t : ℕ) → t < 63 → is_running (g.place t) ≡ (c == t)
  pub resting : (t : ℕ) → t < 64 → exists n t ≡ true → c ≢ t → AtRest n t (k.system_tcb t)
  pub native : (k.system_tcb c).native_prio ≡ c
  pub ceiling : (k.system_tcb c).cur_prio ≡ (if (k.system_tcb c).holds_lock == 0 then c else 0)
  pub counted : (k.system_tcb c).holds_lock ≡ count 32 (λ m. (k.gt_mutex m).locked)
  pub mutexes : (m : ℕ) → m < 32 → MutexFine (some c) (k.gt_mutex m)

-- Some task is current, and everything is in its place.
abbrev pub IsSound : ℕ → Kernel → Type 0
IsSound n k = (c : ℕ) × (g : Ghost) × Inv n k c g
