-- ===== src/Boot/Tests.antt =====
-- The boot tables at concrete addresses.
use kingdo_micro_kernel.Prelude.{none, [], arith}
use kingdo_micro_kernel.Buddy.{MemRegion}
use kingdo_micro_kernel.Boot.{Tables, Places}
use kingdo_micro_kernel.Boot.Seen.{ArePages}

abbrev empty : Tables
empty = record { l0 = λ _. 0; l1 = λ _. 0; l2 = λ _. 0 }

abbrev places1 : Places
places1 = record { l1_at = 0x8_1000; l2_at = 0x8_2000 }

abbrev places0 : Places
places0 = record { l1_at = 0x8_4000; l2_at = 0x8_5000 }

abbrev no_region : MemRegion
no_region = record {
  start_addr = 0;
  size = 0;
  page_arrry = 0;
  page_num = 0;
  free_lists = λ _. record { nodes = []; nr_free = 0 };
  pages = λ _. record { allocated = 0; order = 0; slab = none };
}

pages : ArePages 0x8_0000 places1
pages = record { in_memory = omega arith; on_page = omega arith; different = omega arith }
