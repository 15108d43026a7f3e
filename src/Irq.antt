-- ===== src/Irq.antt =====
-- Interrupts and synchronous exceptions: arch/aarch64/plat/raspi3/irq/irq.c and
-- arch/aarch64/irq/irq_entry.c, with enable_uart_irq of the serial driver.
--
-- What is written to device registers is a list, in its order. What a read of a register returns, and
-- `__builtin_ctzl`, are arguments. The messages are not modelled.
pub mod Timer
pub mod Dispatch
mod Tests
use kingdo_micro_kernel.Prelude.{
  ℕ, zero, suc, ◌+◌, ◌-◌, ◌*◌, ◌/◌, ◌%◌, ◌^◌, Bool, true, false, not, ◌||◌, ◌&&◌, List, [], ◌∷◌,
  ◌++◌, ltb, ◌==◌, if◌then◌else◌, Run, done, stop, hang, fault, ◌>>=◌,
}
use kingdo_micro_kernel.Uart.{UartBuffer, clear, Port, uart_irq_handler}

pub data Register : Type 0 where
  fiq_ctrl enable1 enable2 disable1 disable2 disable_basic basic pending1 pending2 : Register
  pl011_icr pl011_imsc pl011_ifls : Register
  cntp_tval_el0 cntp_ctl_el0 : Register
  timer_irqcntl : ℕ → Register

abbrev pub Writes : Type 0
Writes = List (Register × ℕ)

abbrev pub irq_usb : ℕ
irq_usb = 9

abbrev pub irq_uart : ℕ
irq_uart = 32 + 25

-- IRQ_UART_BIT is the bit of this number.
abbrev pub irq_uart_bit : ℕ
irq_uart_bit = irq_uart - 32

unfoldable pub plat_enable_irqno : ℕ → Writes
plat_enable_irqno irq =
    if ltb irq 32
    then (enable1, 2 ^ irq) ∷ []
    else if ltb irq 64
    then (enable2, 2 ^ (irq - 32)) ∷ []
    else []

unfoldable pub plat_disable_irqno : ℕ → Writes
plat_disable_irqno irq =
    if ltb irq 32
    then (disable1, 2 ^ irq) ∷ []
    else if ltb irq 64
    then (disable2, 2 ^ (irq - 32)) ∷ []
    else []

unfoldable pub enable_uart_irq : ℕ → UartBuffer → Writes × UartBuffer
unfolding plat_enable_irqno
enable_uart_irq irq_num ring = (
  (pl011_icr, 0x7ff) ∷ (pl011_imsc, 2 ^ 4) ∷ (pl011_ifls, 0) ∷ plat_enable_irqno irq_num,
  clear ring,
)

-- `once`, the writes and the ring; `get` is what the reads return.
unfoldable pub interrupt_init : (Register → ℕ) → Bool → UartBuffer → Bool × (Writes × UartBuffer)
unfolding plat_enable_irqno enable_uart_irq
interrupt_init get false ring = (false, ([], ring))
interrupt_init get true ring =
    let uart = enable_uart_irq irq_uart ring in
    (
      false,
      (
        (fiq_ctrl, 0)
              ∷ (disable1, 2 ^ 32 - 1)
              ∷ (disable2, 2 ^ 32 - 1)
              ∷ (disable_basic, 2 ^ 32 - 1)
              ∷ (basic, get basic)
              ∷ (pending1, get pending1)
              ∷ (pending2, get pending2)
              ∷ plat_enable_irqno irq_usb
            ++ uart.0,
        uart.1,
      ),
    )

-- BITS_PER_LONG is 64.
unfoldable pub ctzl : (ℕ → ℕ) → ℕ → ℕ
ctzl builtin_ctzl x = if x == 0 then 64 else builtin_ctzl x

abbrev pub int_src_timer1 : ℕ
int_src_timer1 = 2

-- What a core has at hand in the handler.
pub record Core : Type 0 where
  pub port : Port
  pub cntp_tval : ℕ
  pub written : Writes

-- handle_timer_irq
unfoldable pub plat_set_init_timer : Core → Core
plat_set_init_timer s = record s { written = s.written ++ (cntp_tval_el0, s.cntp_tval) ∷ [] }

-- The sources of the serial port: `handler` is `uart_irq_handler` of the port.
unfoldable pub peripheral_irq : ℕ → ℕ → (Port → Run Port) → Core → Run Core
peripheral_irq cpuid pending handler s =
    let served = (handler s.port >>= λ port. done (record s { port = port })) in
    if not (cpuid == 0)
    then stop hang
    else if (pending / 2 ^ irq_uart_bit) % 2 == 1
    then served
    else done s

-- `1 << ctzl(irq_src)`: where no source is set, the shift is by 64, which is undefined.
unfoldable pub plat_handle_irq : (ℕ → ℕ) → ℕ → ℕ → ℕ → (Port → Run Port) → Core → Run Core
unfolding ctzl plat_set_init_timer peripheral_irq
plat_handle_irq builtin_ctzl cpuid irq_src pending handler s =
    let shift = ctzl builtin_ctzl irq_src in
    let peripheral = peripheral_irq cpuid pending handler s in
    if ltb 31 shift
    then stop fault
    else if 2 ^ shift == int_src_timer1
    then done (plat_set_init_timer s)
    else peripheral

abbrev pub esr_ec : ℕ → ℕ
esr_ec esr = esr / 2 ^ 26 % 2 ^ 6

abbrev pub sync_el0_64 : ℕ
sync_el0_64 = 8

abbrev pub ec_wfi_wfe : ℕ
ec_wfi_wfe = 1

abbrev pub ec_iabt_lel : ℕ
ec_iabt_lel = 0b100000

abbrev pub ec_dabt_lel : ℕ
ec_dabt_lel = 0b100100

abbrev pub ec_dabt_cel : ℕ
ec_dabt_cel = 0b100101

-- The classes that the switch returns from; `fix_addr` is 0. The others come to BUG.
unfoldable pub handle_sync : ℕ → ℕ → ℕ → Run ℕ
handle_sync type esr address =
    let ec = esr_ec esr in
    if ltb type sync_el0_64 && not (ec == ec_dabt_cel)
    then stop hang
    else if ec == ec_wfi_wfe
    then done address
    else if ec == ec_iabt_lel
    then done address
    else if ec == ec_dabt_lel
    then done address
    else if ec == ec_dabt_cel
    then done address
    else stop hang
