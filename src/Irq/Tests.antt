-- ===== src/Irq/Tests.antt =====
-- An interrupt of the serial port, and the time, at concrete inputs.
use kingdo_micro_kernel.Prelude.{ℕ, ◌-◌, ◌≤◌, ◌≡◌, [], done, arith}
use kingdo_micro_kernel.Irq.{Core}
use kingdo_micro_kernel.Irq.Timer.{
  plat_get_mono_time, plat_timer_init, exact_ns, whole_mhz, plat_get_mono_time-plat_timer_init,
}

abbrev idle : Core
idle = record {
  port = record {
    ring = record { buffer = λ _. 0; read_pos = 3; put_pos = 5 };
    reads = 0;
    sent = [];
  };
  cntp_tval = 192000;
  written = [];
}

-- At 19.2 MHz, 19 ticks count as a microsecond.
plat_get_mono_time-plat_timer_init_example :
    (ns : ℕ) × (plat_get_mono_time (plat_timer_init 0 1000 19_200_000).0 19_201_000 ≡ done ns)
    × (ns ≡ exact_ns (19_201_000 - 1000) (whole_mhz 19_200_000))
    × (exact_ns (19_201_000 - 1000) 19_200_000 ≤ ns)
plat_get_mono_time-plat_timer_init_example =
    plat_get_mono_time-plat_timer_init 0 1000 19_200_000 19_201_000 (omega arith) (omega arith)
      (omega arith) (omega arith)
