-- ===== src/Boot/Walk.antt =====
-- The kernel's own query, on the boot tables of its half.
use kingdo_micro_kernel.Prelude.{ℕ}
use kingdo_micro_kernel.Buddy.{MemRegion}
use kingdo_micro_kernel.PageTable.{PageTables}
use kingdo_micro_kernel.Boot.{Tables, Places}
use kingdo_micro_kernel.Boot.Linear.{IsHigh}
use kingdo_micro_kernel.Boot.Seen.{seen, ArePages}

module _ (l0_at : ℕ) (places : Places) (pages : ArePages l0_at places) (r : MemRegion)
    {t t' : Tables} (h : IsHigh places t t') where
  abbrev st : PageTables
  st = seen l0_at places t' r
