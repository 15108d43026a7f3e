-- ===== src/Uart/Tests.antt =====
-- The ring and the handler at concrete inputs.
use kingdo_micro_kernel.Prelude.{ℕ, ◌==◌, if◌then◌else◌, ◌≡◌, refl, List, [], ◌∷◌, done, arith}
use kingdo_micro_kernel.Uart.{UartBuffer, Port, uart_irq_handler, clear, store, nb_uart_recv}
use kingdo_micro_kernel.Uart.Ring.{
  Event, receive, read, IsRing, pending, push, answers, queue_answers, answers-clear,
}
use kingdo_micro_kernel.Uart.Handler.{uart_irq_handler-done}

abbrev zeros : UartBuffer
zeros = record { buffer = λ _. 0; read_pos = 0; put_pos = 0 }

-- Sixteen bytes come in before the first is read: it is gone.
abbrev flood : List Event
flood =
    receive 1
    ∷ receive 2
    ∷ receive 3
    ∷ receive 4
    ∷ receive 5
    ∷ receive 6
    ∷ receive 7
    ∷ receive 8
    ∷ receive 9
    ∷ receive 10
    ∷ receive 11
    ∷ receive 12
    ∷ receive 13
    ∷ receive 14
    ∷ receive 15
    ∷ receive 16
    ∷ read
    ∷ read
    ∷ []

flooded : answers flood zeros ≡ 2 ∷ 3 ∷ []
unfolding answers store nb_uart_recv
flooded = refl

answers-clear_example : answers flood (clear zeros) ≡ queue_answers flood []
answers-clear_example = answers-clear flood zeros

-- The byte 255 gives the answer of an empty ring.
no_answer : answers (receive 255 ∷ read ∷ read ∷ []) zeros ≡ 255 ∷ 255 ∷ []
unfolding answers store nb_uart_recv
no_answer = refl

abbrev port : Port
port = record { ring = zeros; reads = 0; sent = [] }

-- The transmitter is busy at the first read of the flags.
abbrev flags : ℕ → ℕ
flags k = if k == 0 then 32 else 0

uart_irq_handler-done_example :
    (s' : Port) × (uart_irq_handler 5 flags 0x141 port ≡ done s')
    × (s'.reads ≡ 2)
    × (s'.sent ≡ 0x41 ∷ [])
    × IsRing s'.ring
    × (pending s'.ring ≡ push 0x41 (pending zeros))
uart_irq_handler-done_example =
    uart_irq_handler-done port 1 5 flags 0x141 (omega arith) (omega arith) refl
      (λ j less. ground arith)
