-- ===== src/Kernel/Irq.antt =====
-- kernel/arch/x86_64/interrupt/irq_state.c. Of the saved RFLAGS the kernel uses the flag IF, so
-- the saved word is that flag.
use batos_os.Prelude.{Bool, false}
use batos_os.Kernel.{Kernel}

-- The saved flags, and the state with interrupts masked.
abbrev pub irq_save : Kernel → Bool × Kernel
irq_save k = (k.interrupts, record k { interrupts = false })

abbrev pub irq_restore : Bool → Kernel → Kernel
irq_restore flags k = record k { interrupts = flags }

abbrev pub irq_is_enabled : Kernel → Bool
irq_is_enabled k = k.interrupts
