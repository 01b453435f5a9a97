-- ===== src/Kmain.antt =====
-- `kmain` of lab4/lab4/kernel/main.c, which puts the handlers in place and starts the timer.
pub mod Fresh
pub mod Earlier
use fundamental_of_emb.Common.{ℕ, ◌==◌, if◌then◌else◌}
use fundamental_of_emb.Hijack.{Vectors, hijacking, bad_code}
use fundamental_of_emb.Timer.{Regs, Saved, set_timer}
use fundamental_of_emb.Kernel.{Kernel}
use fundamental_of_emb.Mutex.{mutex_init}

abbrev pub swi_vector : ℕ
swi_vector = 0x08

abbrev pub irq_vector : ℕ
irq_vector = 0x18

-- The vectors with the boot loader's handlers, the registers of the timer and the interrupt
-- controller, and the kernel's data.
pub record Board : Type 0 where
  pub vectors : Vectors
  pub regs : Regs
  pub kernel : Kernel

-- `fails` returns 0xbadc0de to the boot loader, `user_mode` enters the user's program through
-- `user_mode_setup`, which is assembly, with what `set_timer` saved.
pub data Start : Type 0 where
  fails : Board → Start
  user_mode : Board → Saved → Start

-- `set_timer`, `mutex_init` and `user_mode_setup`.
abbrev pub enter : Board → Start
enter b =
    let t = set_timer b.regs in
    user_mode (record b { regs = t.1; kernel = mutex_init b.kernel }) t.0

module _ (swihandler irq_wrapper : ℕ) where
  -- The second part, for the IRQ handler. Only the code 0xbadc0de stops it.
  abbrev pub hijack_irq : Board → Start
  hijack_irq b =
      let i = hijacking swihandler irq_wrapper irq_vector 2 b.vectors in
      if i.0 == bad_code
      then fails (record b { vectors = i.1 })
      else enter (record b { vectors = i.1 })

  unfoldable pub kmain : Board → Start
  kmain b =
      let s = hijacking swihandler irq_wrapper swi_vector 1 b.vectors in
      if s.0 == bad_code
      then fails (record b { vectors = s.1 })
      else hijack_irq (record b { vectors = s.1 })
