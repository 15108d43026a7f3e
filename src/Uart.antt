-- ===== src/Uart.antt =====
-- arch/aarch64/plat/raspi3/uart/uart.c, the PL011 driver: the ring of received bytes, its interrupt
-- handler and its readers.
--
-- `pl011_buffer` is the record `UartBuffer`. The device is outside the repository: `fr k` is what the
-- k-th read of its flags register returns and `dr` what the read of its data register returns. What
-- is written to the data register is the list `sent`, the latest byte first. `char` is unsigned, as
-- it is on this processor.
pub mod Ring
pub mod Handler
mod Tests
use kingdo_micro_kernel.Prelude.{
  ℕ, zero, suc, ◌+◌, ◌/◌, ◌%◌, Bool, List, ◌∷◌, ◌==◌, if◌then◌else◌, update, Run, done, stop,
  out_of_fuel, ◌>>=◌,
}

abbrev pub uart_buf_len : ℕ
uart_buf_len = 16

-- (char)-1
abbrev pub nb_uart_nret : ℕ
nb_uart_nret = 255

pub record UartBuffer : Type 0 where
  pub buffer : ℕ → ℕ
  pub read_pos : ℕ
  pub put_pos : ℕ

-- A position, one further, back to 0 at the end of the array.
abbrev pub advance : ℕ → ℕ
advance pos = if pos + 1 == uart_buf_len then 0 else pos + 1

-- The part of `enable_uart_irq` that sets the ring up.
unfoldable pub clear : UartBuffer → UartBuffer
clear s = record s { read_pos = 0; put_pos = 0 }

-- The part of `uart_irq_handler` that works on the ring: where it is full, the oldest byte goes.
unfoldable pub store : ℕ → UartBuffer → UartBuffer
store input s =
    let put = advance s.put_pos in
    record {
      buffer = update s.buffer s.put_pos input;
      read_pos = if s.read_pos == put then advance s.read_pos else s.read_pos;
      put_pos = put;
    }

unfoldable pub nb_uart_recv : UartBuffer → ℕ × UartBuffer
nb_uart_recv s =
    if s.read_pos == s.put_pos
    then (nb_uart_nret, s)
    else (s.buffer s.read_pos, record s { read_pos = advance s.read_pos })

-- The driver with its device: how often the flags have been read, and what was written.
pub record Port : Type 0 where
  pub ring : UartBuffer
  pub reads : ℕ
  pub sent : List ℕ

-- `while (uart_fr() & mask);`: the reads of the flags that it takes.
unfoldable pub poll : ℕ → (ℕ → ℕ) → ℕ → ℕ → Run ℕ
poll zero fr mask reads = stop out_of_fuel
poll (suc fuel) fr mask reads =
    let rest = poll fuel fr mask (reads + 1) in
    if (fr reads / mask) % 2 == 0 then done (reads + 1) else rest

unfoldable pub uart_send : ℕ → (ℕ → ℕ) → ℕ → Port → Run Port
uart_send fuel fr c s =
    poll fuel fr 32 s.reads >>= λ reads. done (record s { reads = reads; sent = c ∷ s.sent })

unfoldable pub uart_recv : ℕ → (ℕ → ℕ) → ℕ → Port → Run (ℕ × Port)
uart_recv fuel fr dr s =
    poll fuel fr 16 s.reads >>= λ reads. done (dr % 256, record s { reads = reads })

unfoldable pub uart_irq_handler : ℕ → (ℕ → ℕ) → ℕ → Port → Run Port
uart_irq_handler fuel fr dr s =
    uart_send fuel fr (dr % 256) s >>= λ s'. done (record s' { ring = store (dr % 256) s'.ring })
