-- ===== src/Protocol/Turn.antt =====
-- What the scan of `dev_update` does to the devices (lab4/lab4/kernel/device.c).
use fundamental_of_emb.Common.{
  ℕ, zero, suc, ◌≤◌, ◌<◌, ◌≡◌, refl, sym, subst, ◌∙◌, ap, Bool, true, false, none, some, Option,
  leb, ◌==◌, ==_iff, arith, Bool-cases, inl, inr, add32, if◌then◌else◌, update, ◌||◌, is_some,
}
use fundamental_of_emb.RunQueue.{RunQueue}
use fundamental_of_emb.Kernel.{Kernel, Tcb, Dev}
use fundamental_of_emb.Device.{dev_freq, update_dev, update_next, update_devs, woken, Scan}

-- A device behind its turn in the scan.
abbrev pub turned : ℕ → Kernel → ℕ → Dev
turned millis k d =
    if leb (k.devices d).next_match millis
    then record { next_match = add32 millis (dev_freq d); sleep_queue = none }
    else k.devices d

-- Behind the turns of the first `n` devices.
abbrev pub Turned : ℕ → ℕ → Kernel → Scan → Type 0
Turned millis n k none = Unit
Turned millis n k (some (k', flag)) =
    (k'.timer_count ≡ k.timer_count)
    × ((d : ℕ) → d < n → k'.devices d ≡ turned millis k d)
    × ((d : ℕ) → n ≤ d → k'.devices d ≡ k.devices d)

woken-Turned :
    (millis n : ℕ) (k k' : Kernel) (flag flag' : Bool) (o : Option (RunQueue × (ℕ → Tcb)))
    → Turned millis n k (some (k', flag))
    → Turned millis n k (woken k' flag' o)
woken-Turned millis n k k' flag flag' none t = tt
woken-Turned millis n k k' flag flag' (some r) t = t

module _ (millis : ℕ) (k : Kernel) where
  update_dev-Turned :
      (n : ℕ) (k' : Kernel) (flag : Bool)
      → Turned millis n k (some (k', flag))
      → Turned millis (suc n) k (update_dev millis n k' flag)
  unfolding update_dev
  update_dev-Turned n k' flag t =
      let same : k'.devices n ≡ k.devices n = t.2 n (omega arith) in
      elim (Bool-cases (leb (k'.devices n).next_match millis)) [
        | inl due ↦
            let due' : leb (k.devices n).next_match millis ≡ true =
              ap (λ (m : Dev). leb m.next_match millis) (sym same) ∙ due in
            let d' : Dev = record { next_match = add32 millis (dev_freq n); sleep_queue = none } in
            rw due (
              woken-Turned millis (suc n) k (record k' { devices = update k'.devices n d' }) flag
                (flag || is_some (k'.devices n).sleep_queue) _
                (
                  t.0,
                  (λ d lt. elim (Bool-cases (n == d)) [
                    | inl e ↦
                        rw e (subst (λ x. d' ≡ turned millis k x) ((==_iff n d).0 e) (rw due' refl))
                    | inr ne ↦ rw ne (t.1 d (ground (arith, lt, ne)))
                  ]),
                  (λ d le.
                      let ne : (n == d) ≡ false = ground (arith, le) in
                      rw ne (t.2 d (omega (arith, le)))),
                ))
        | inr early ↦
            let early' : leb (k.devices n).next_match millis ≡ false =
              ap (λ (m : Dev). leb m.next_match millis) (sym same) ∙ early in
            rw early (
              t.0,
              (λ d lt. elim (Bool-cases (n == d)) [
                | inl e ↦
                    subst (λ x. k'.devices x ≡ turned millis k x) ((==_iff n d).0 e)
                      (rw early' same)
                | inr ne ↦ t.1 d (ground (arith, lt, ne))
              ]),
              (λ d le. t.2 d (omega (arith, le))),
            )
      ]

  update_next-Turned :
      (n : ℕ) (o : Scan) → Turned millis n k o → Turned millis (suc n) k (update_next millis n o)
  update_next-Turned n none t = tt
  update_next-Turned n (some (k', flag)) t = update_dev-Turned n k' flag t

  pub update_devs-Turned : (n : ℕ) → Turned millis n k (update_devs millis n k)
  unfolding update_devs
  update_devs-Turned zero = (refl, (λ d lt. absurd (omega (arith, lt))), (λ d le. refl))
  update_devs-Turned (suc n) = update_next-Turned n _ (update_devs-Turned n)
