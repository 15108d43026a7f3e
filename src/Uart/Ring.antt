-- ===== src/Uart/Ring.antt =====
-- The ring of the PL011 driver is a queue of the latest fifteen bytes.
use kingdo_micro_kernel.Prelude.{
  ℕ, zero, suc, ◌+◌, ◌-◌, ◌%◌, ◌<◌, ◌≡◌, ◌≢◌, refl, inl, inr, ap, ◌∙◌, true, false, List, [], ◌∷◌,
  ◌++◌, length, ◌==◌, if◌then◌else◌, update, arith, Bool-cases,
}
use kingdo_micro_kernel.Uart.{
  UartBuffer, uart_buf_len, nb_uart_nret, advance, clear, store, nb_uart_recv,
}

pub record IsRing (s : UartBuffer) : Type 0 where
  pub read_in : s.read_pos < uart_buf_len
  pub put_in : s.put_pos < uart_buf_len

-- The `k` bytes from position `pos` on, around the end.
unfoldable pub walk : (ℕ → ℕ) → ℕ → ℕ → List ℕ
walk buffer pos zero = []
walk buffer pos (suc k) = buffer pos ∷ walk buffer (advance pos) k

-- The number of bytes in the ring.
abbrev pub count : UartBuffer → ℕ
count s = (s.put_pos + uart_buf_len - s.read_pos) % uart_buf_len

-- The bytes that have been received and not read, from the oldest.
abbrev pub pending : UartBuffer → List ℕ
pending s = walk s.buffer s.read_pos (count s)

-- The queue: a byte is added at the end, and the oldest leaves where there would be sixteen.
abbrev pub drop_one : List ℕ → List ℕ
drop_one [] = []
drop_one (x ∷ q) = q

abbrev pub push : ℕ → List ℕ → List ℕ
push c q = if length q == 15 then drop_one (q ++ c ∷ []) else q ++ c ∷ []

abbrev pub pop : List ℕ → ℕ × List ℕ
pop [] = (nb_uart_nret, [])
pop (c ∷ q) = (c, q)

length-walk : (b : ℕ → ℕ) (pos k : ℕ) → length (walk b pos k) ≡ k
unfolding walk
length-walk b pos zero = refl
length-walk b pos (suc k) = ground (arith, length-walk b (advance pos) k)

-- The byte that is written behind the last one.
walk-update :
    (b : ℕ → ℕ) (pos k p c : ℕ)
    → pos < 16
    → k < 16
    → p ≡ (pos + k) % 16
    → walk (update b p c) pos (suc k) ≡ walk b pos k ++ c ∷ []
unfolding walk
walk-update b pos zero p c in_array less e = ground arith
walk-update b pos (suc k) p c in_array less e =
    let rest = walk-update b (advance pos) k p c (ground arith) (omega arith) (ground arith) in
    ground (arith, rest)

module _ {s : UartBuffer} (ring : IsRing s) where
  pub store-IsRing : (c : ℕ) → IsRing (store c s)
  unfolding store
  store-IsRing c = record { read_in = ground arith; put_in = ground arith }

  -- the bytes behind the write, the oldest still among them
  written :
      (c : ℕ) → walk (update s.buffer s.put_pos c) s.read_pos (suc (count s)) ≡ pending s ++ c ∷ []
  written c =
      walk-update s.buffer s.read_pos (count s) s.put_pos c ring.read_in (omega arith)
        (omega (arith, ring.read_in, ring.put_in))

  count-full : s.read_pos ≡ advance s.put_pos → count s ≡ 15
  count-full e = ground (arith, ring.read_in, ring.put_in)

  count-room : s.read_pos ≢ advance s.put_pos → count s ≢ 15
  count-room ne = ground (arith, ring.read_in, ring.put_in)

  count-next :
      s.read_pos ≢ advance s.put_pos
      → (advance s.put_pos + uart_buf_len - s.read_pos) % uart_buf_len ≡ suc (count s)
  count-next ne = ground (arith, ring.read_in, ring.put_in)

  count-same :
      s.read_pos ≡ advance s.put_pos
      → (advance s.put_pos + uart_buf_len - advance s.read_pos) % uart_buf_len ≡ count s
  count-same e = ground (arith, ring.read_in, ring.put_in)

  length-pending : length (pending s) ≡ count s
  length-pending = length-walk s.buffer s.read_pos (count s)

  pub pending-store : (c : ℕ) → pending (store c s) ≡ push c (pending s)
  unfolding store walk
  pending-store c = elim (Bool-cases (s.read_pos == advance s.put_pos)) [
    | inl full ↦
        let e : s.read_pos ≡ advance s.put_pos = ground arith in
        let l : (length (pending s) == 15) ≡ true = ground (arith, count-full e, length-pending) in
        rw (full, l, count-same e) (ap drop_one (written c))
    | inr room ↦
        let ne : s.read_pos ≢ advance s.put_pos = ground arith in
        let l : (length (pending s) == 15) ≡ false =
          ground (arith, count-room ne, length-pending) in
        rw (room, l, count-next ne) (written c)
  ]

  nb_uart_recv-IsRing : IsRing (nb_uart_recv s).1
  unfolding nb_uart_recv
  nb_uart_recv-IsRing = elim (Bool-cases (s.read_pos == s.put_pos)) [
    | inl empty ↦ rw empty ring
    | inr some ↦ rw some (record { read_in = ground (arith, ring.read_in); put_in = ring.put_in })
  ]

  count-less :
      s.read_pos ≢ s.put_pos
      → count s ≡ suc ((s.put_pos + uart_buf_len - advance s.read_pos) % uart_buf_len)
  count-less ne = ground (arith, ring.read_in, ring.put_in)

  count-empty : s.read_pos ≡ s.put_pos → count s ≡ 0
  count-empty e = ground (arith, ring.read_in, ring.put_in)

  nb_uart_recv-pop : ((nb_uart_recv s).0, pending (nb_uart_recv s).1) ≡ pop (pending s)
  unfolding nb_uart_recv walk
  nb_uart_recv-pop = elim (Bool-cases (s.read_pos == s.put_pos)) [
    | inl empty ↦ rw (empty, count-empty (ground arith)) refl
    | inr some ↦ rw (some, count-less (ground arith)) refl
  ]

-- What happens to the ring: a byte comes in, or `nb_uart_recv` is called.
pub data Event : Type 0 where
  receive : ℕ → Event
  read : Event

-- What the calls of `nb_uart_recv` return, in their order, for the ring and for the queue.
unfoldable pub answers : List Event → UartBuffer → List ℕ
answers [] s = []
answers (receive c ∷ es) s = answers es (store c s)
answers (read ∷ es) s = (nb_uart_recv s).0 ∷ answers es (nb_uart_recv s).1

unfoldable pub queue_answers : List Event → List ℕ → List ℕ
queue_answers [] q = []
queue_answers (receive c ∷ es) q = queue_answers es (push c q)
queue_answers (read ∷ es) q = (pop q).0 ∷ queue_answers es (pop q).1

answers-pending :
    (es : List Event) (s : UartBuffer) → IsRing s → answers es s ≡ queue_answers es (pending s)
unfolding answers queue_answers
answers-pending [] s ring = refl
answers-pending (receive c ∷ es) s ring =
    answers-pending es (store c s) (store-IsRing ring c)
    ∙ ap (queue_answers es) (pending-store ring c)
answers-pending (read ∷ es) s ring =
    let e = nb_uart_recv-pop ring in
    rw (answers-pending es (nb_uart_recv s).1 (nb_uart_recv-IsRing ring))
      (ap (λ (r : ℕ × List ℕ). r.0 ∷ queue_answers es r.1) e)

-- After the ring is set up, and for every sequence of received bytes and calls of nb_uart_recv,
-- the calls return what a queue of the latest fifteen bytes that were not read gives, with 255
-- where it is empty.
pub answers-clear : (es : List Event) (s : UartBuffer) → answers es (clear s) ≡ queue_answers es []
unfolding clear walk
answers-clear es s =
    answers-pending es (clear s) (record { read_in = omega arith; put_in = omega arith })
