-- ===== src/Lib.antt =====
-- Verification of KingdoMicroKernel, a small kernel in C for the Raspberry Pi 3 (aarch64).
--
-- The parts that are modelled, and how they meet:
-- - Buddy.antt and the modules below it: the buddy allocator of physical pages, mm/buddy.c and
--   include/mm/buddy.h. `memory_region_g` is the record MemRegion, passed from call to call; a
--   `struct page *` is an index into `page_arrry`. Buddy/Init: init_buddy and populate_page.
--   Buddy/Layout: addresses of pages and buddies. Buddy/Tiling: the invariant that aligned chunks tile
--   the region and that the free lists hold the free ones. Buddy/Get, Buddy/Free: buddy_get_pages and
--   buddy_free_pages. Buddy/Count, Buddy/Account: the counters, and sequences of calls.
-- - Slab.antt: the slab allocator, mm/slab.c and include/mm/slab.h, which takes its slabs from the
--   buddy allocator. `slab_pool_g`, the slab headers and the words in the free blocks are the record
--   SlabPool, which has the MemRegion as a field. Slab/Blocks: the free blocks of a slab. Slab/Fresh: a
--   new slab, and the order for a size. Slab/Alloc: slabs from the buddy allocator. Slab/Pool and the
--   modules below it: the invariant of all slabs and containers, the blocks that clients have, and
--   their calls. `__slab_alloc` is
--   slab_alloc_order, `__slab_free` is slab_free_block.
-- - PageTable.antt: the page tables, arch/aarch64/mm/page_table.c and its header, whose tables are pages
--   from the buddy allocator. PageTable/Entry: entries and addresses. PageTable/Query: the query.
--   PageTable/Map: the mapping of a range.
--   PageTable/Written: its inner loop. PageTable/Tree, PageTable/Grow: the tables as a tree, and how it
--   grows. PageTable/Mapped, PageTable/Kept: what is mapped, and stays so. PageTable/Rounds,
--   PageTable/Range: the mapping of a range, and a query after it.
-- - Uart.antt: the PL011 serial driver, arch/aarch64/plat/raspi3/uart/uart.c. `pl011_buffer` is the
--   record UartBuffer. Uart/Ring: the ring as a queue. Uart/Handler: the interrupt handler with the
--   device, whose flags register is a function from the number of the read to the value.
-- - Kmalloc.antt: memory of any size, mm/kmalloc.c, on the slab and the buddy allocator. Kmalloc/Sizes:
--   the size that a request is given. Kmalloc/Pages: requests that the buddy allocator serves.
--   Kmalloc/Blocks: requests that the slab allocator serves.
--   `__kmalloc` is kmalloc_sized.
-- - Boot.antt: the page tables that the processor starts with, arch/aarch64/boot/raspi3/init/mmu.c.
--   Boot/Fill, Boot/Linear: what its loops write. Boot/Seen, Boot/Walk: the
--   kernel's query on those tables.
-- - Printk.antt: formatted output, lib/printk.c. What is sent to the console is a list of characters.
--   Printk/Vsprintf: the format and its directives, simple_vsprintf and printk. Printk/Digits,
--   Printk/Padding: numbers and strings in their width. Printk/Numbers: the number conversions.
--   Printk/Format, Printk/Cut, Printk/Returns and below: the loop over the format.
-- - Irq.antt: interrupts and exceptions, arch/aarch64/plat/raspi3/irq and arch/aarch64/irq/irq_entry.c.
--   The writes to device registers are a list; what the reads return is an argument. Irq/Timer: the
--   timer and the time. Irq/Dispatch: an interrupt of the serial port, down to its ring.
-- - Links.antt: the linked lists of include/common/list.h as words in memory. Links/Ring, Links/Edits:
--   the doubly linked list as a sequence. Links/Hash: the hash list.
-- - Bitops.antt: bit arrays, include/common/bitops.h, an array being a function from the index to the
--   word. Bitops/Next and below: the search for the next bit.
-- - Utils.antt: blocks of memory and strings, include/common/utils.h, on a function from the address
--   to the byte. Utils/Copy: memcpy and memset. Utils/Compare: strlen, strcmp and memcmp.
-- - Prelude.antt: names and lemmas that the others share. Prelude/Result: how a call ends.
--
-- How the code is read. A call returns a value of Run: `done` with the result, or `stop` where the
-- code spins in BUG_ON or kerror (`hang`), accesses an object that is not there (`fault`), or exceeds
-- the model's bound (`out_of_fuel`). In the allocators, a `struct list_head` (include/common/list.h) is
-- the sequence of the objects that are linked into it, from the front; Links.antt has the list as the
-- words of its nodes. A call is one step, and several calls are a sequence: calls that run at the same time on two processors
-- are not modelled. (buddy_get_pages and buddy_free_pages hold their lock; slab_free reads the page's mark
-- and the slab's order before it takes its lock and unlinks an emptied slab after its pages are given back,
-- and the functions that count pages take none.) The page structures are apart from the memory that is
-- handed out, also for a kernel image with which the array would reach into the first page. Page counters and block
-- counters are natural numbers: they count entries of a list without duplicates, of which there are at
-- most as many as pages or blocks, so they do not wrap. Addresses are computed modulo 2 ^ 64 where the
-- buddy allocator computes them.
--
-- Bounds. split_chunk climbs from order + 1 to 11, so its 12 rounds are enough for any order;
-- merge_chunk rises one order in a round and ends at order 10, so 11 rounds are enough; the loops of
-- populate_page advance by at least a page in a round, so as many rounds as pages and one more are
-- enough; a slab has as many rounds of links as blocks;
-- the mapping of a range enters a table for at least one page of it; size_to_slab_order has six orders and
-- size_to_page_order eleven; a loop of init_kernel_pt writes at most 512 entries;
-- the search for a bit has at most 64 rounds in a word, and a round for each word; strlen and strcmp
-- have a round for each byte of the first string and one for its end;
-- the loop over a format moves forward by at least a character in a round. What the
-- union of simple_vsprintf holds at the start is a parameter of printk. What printk sends is a list: the
-- wait of uart_send for the device before each character is not modelled. Where C leaves the overflow of
-- a signed number undefined (a width of many digits, the negative of the least long), it wraps. Polling the
-- device has a bound that the theorem's hypothesis compares with the device.
--
-- Not modelled: the output of the allocators' print functions, and what is logged; the registers of the
-- processor and of the serial port that are written once at the start; bsr and the masks of bits; system
-- calls; the self tests.
pub mod Prelude
pub mod Buddy
pub mod Slab
pub mod PageTable
pub mod Kmalloc
pub mod Bitops
pub mod Boot
pub mod Irq
pub mod Links
pub mod Printk
pub mod Uart
pub mod Utils
