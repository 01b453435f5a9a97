-- ===== src/Protocol/Held.antt =====
-- Taking and giving back a mutex (lab4/lab4/kernel/lock/mutex.c) keeps the invariant.
use fundamental_of_emb.Common.{
  ℕ, suc, ◌≤◌, ◌<◌, ◌≡◌, ◌≢◌, refl, Bool, true, false, none, some, update, ◌==◌, if◌then◌else◌,
  arith, add32,
}
use fundamental_of_emb.RunQueue.{Ptr}
use fundamental_of_emb.Kernel.{Kernel, Tcb}
use fundamental_of_emb.Mutex.{release_tcb}
use fundamental_of_emb.Protocol.Defs.{Ghost, count, Inv}
use fundamental_of_emb.Protocol.Lists.{count-add, count-le, count-pos}
use fundamental_of_emb.Protocol.Take.{Placed-same}

module _ {n : ℕ} {k : Kernel} {c : ℕ} {g : Ghost} (v : Inv n k c g) (m : ℕ) (hm : m < 32) where
  abbrev pub with_lock : Bool → Ptr → Tcb → Kernel
  with_lock b p t = record k {
    gt_mutex = update k.gt_mutex m (record (k.gt_mutex m) { locked = b; holding_tcb = p });
    system_tcb = update k.system_tcb c t;
  }

  -- A change of the lock and of the current task's block that keeps the books.
  lock-Inv :
      (b : Bool) (p : Ptr) (t : Tcb)
      → p ≡ (if b then some c else none)
      → (k.gt_mutex m).available ≡ false
      → t.native_prio ≡ c
      → t.cur_prio ≡ (if t.holds_lock == 0 then c else 0)
      → t.sleep_queue ≡ (k.system_tcb c).sleep_queue
      → t.holds_lock ≡ count 32 (λ i. ((with_lock b p t).gt_mutex i).locked)
      → Inv n (with_lock b p t) c g
  lock-Inv b p t e a nat ceil link cnt = record {
    queued = record { valid = v.queued.valid; listed = v.queued.listed; idle = v.queued.idle };
    placed = Placed-same v.placed (λ i. ground arith) (λ d. refl);
    cur = v.cur;
    in_use = v.in_use;
    only = v.only;
    resting = λ i lt ex ne. let r = v.resting i lt ex ne in rw (off i ne) r;
    native = ground (arith, nat);
    ceiling = ground (arith, ceil);
    counted = ground (arith, cnt);
    mutexes = λ i lt.
        let f = v.mutexes i lt in
        record {
          holder = ground (arith, f.holder, e);
          no_sleepers = ground (arith, f.no_sleepers);
          allocated = λ q. ground (arith, f.allocated, a);
        };
  }
    where
      off : (i : ℕ) → c ≢ i → (c == i) ≡ false
      off i ne = ground arith

  holds-le : (k.system_tcb c).holds_lock ≤ 32
  holds-le = omega (arith, v.counted, count-le 32 (λ i. (k.gt_mutex i).locked))

  abbrev pub locked_now : Tcb
  locked_now =
      let t = k.system_tcb c in record t { holds_lock = add32 t.holds_lock 1; cur_prio = 0 }

  grown :
      (k.gt_mutex m).locked ≡ false
      → count 32 (λ i. ((with_lock true (some c) locked_now).gt_mutex i).locked)
        ≡ suc (count 32 (λ i. (k.gt_mutex i).locked))
  grown free =
      count-add 32 (λ i. (k.gt_mutex i).locked)
        (λ i. ((with_lock true (some c) locked_now).gt_mutex i).locked) m hm free (ground arith)
        (λ i lt ne. ground arith)

  pub acquire-Inv :
      (k.gt_mutex m).available ≡ false
      → (k.gt_mutex m).locked ≡ false
      → Inv n (with_lock true (some c) locked_now) c g
  acquire-Inv a free =
      lock-Inv true (some c) locked_now refl a v.native
        (let h : (add32 (k.system_tcb c).holds_lock 1 == 0) ≡ false = ground (arith, holds-le) in
          rw h)
        refl (omega (arith, holds-le, v.counted, grown free))

  abbrev pub released_now : Tcb
  released_now = release_tcb (k.system_tcb c)

  shrunk :
      (k.gt_mutex m).locked ≡ true
      → count 32 (λ i. (k.gt_mutex i).locked)
        ≡ suc (count 32 (λ i. ((with_lock false none released_now).gt_mutex i).locked))
  shrunk held =
      count-add 32 (λ i. ((with_lock false none released_now).gt_mutex i).locked)
        (λ i. (k.gt_mutex i).locked) m hm (ground arith) held (λ i lt ne. ground arith)

  pub release-Inv :
      (k.gt_mutex m).available ≡ false
      → (k.gt_mutex m).locked ≡ true
      → Inv n (with_lock false none released_now) c g
  release-Inv a held =
      lock-Inv false none released_now refl a v.native
        (ground (
          arith,
          v.native,
          v.ceiling,
          v.counted,
          count-pos 32 (λ i. (k.gt_mutex i).locked) m hm held,
        ))
        refl (omega (arith, holds-le, v.counted, shrunk held))
