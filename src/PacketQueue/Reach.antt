-- ===== src/PacketQueue/Reach.antt =====
-- The queue between its threads: the operations as atomic steps, in every order that the threads can take them.
use adaptive_transport.Common.{ℕ, zero, suc, ◌%◌, ◌≤◌, ◌≡◌, ◌≢◌, refl, sym, ◌∙◌, true, false, arith}
use adaptive_transport.Common.Window.{window}
use adaptive_transport.Packet.{Packet}
use adaptive_transport.PacketQueue.{
  PacketQueue, init, modify, front, front_next, tx_next, unacked_next,
}
use adaptive_transport.PacketQueue.View.{total, pending_count, pending}
use adaptive_transport.PacketQueue.Refine.{HasRoom}
use adaptive_transport.PacketQueue.Enqueue.{front-free, held_front-IsValid}
use adaptive_transport.PacketQueue.Invariant.{
  IsValid, init-IsValid, modify_front-IsValid, front_next-IsValid, tx_next-IsValid,
  unacked_next-IsValid,
}

total-window-size :
    (f g : ℕ → Packet) (size i n : ℕ)
    → ((k : ℕ) → (g k).size ≡ (f k).size)
    → total (window g size i n) ≡ total (window f size i n)
total-window-size f g size i zero same = refl
total-window-size f g size i (suc n) same =
    omega (arith, same (i % size), total-window-size f g size (suc i) n same)

module _ {S : Type 0} (signal : S → S) where
  -- What a thread does to the queue: `front` with success, a write to the front slot by the thread that holds it,
  -- `frontNext` with room for the packet, a write of time stamps to any slot, `txNext` while a packet waits, and `unackedNext`
  -- while a packet is in flight.
  infix 40 ◌⟶◌
  pub data ◌⟶◌ : PacketQueue S → PacketQueue S → Type 0 where
    takes_front : (q : PacketQueue S) → q.front_used ≡ false → q ⟶ (front q).1
    writes_front :
        (q : PacketQueue S) (write : Packet → Packet)
        → q.front_used ≡ true
        → ((p : Packet) → (write p).size ≤ 65535)
        → q ⟶ modify q q.front_idx write
    queues : (q : PacketQueue S) → q.front_used ≡ true → HasRoom q → q ⟶ front_next signal q
    stamps :
        (q : PacketQueue S) (i : ℕ) (write : Packet → Packet)
        → ((p : Packet) → (write p).size ≡ p.size)
        → q ⟶ modify q i write
    sends : (q : PacketQueue S) → q.tx_idx ≢ q.front_idx → q ⟶ tx_next signal q
    settles : (q : PacketQueue S) → q.unacked_idx ≢ q.tx_idx → q ⟶ unacked_next q

  infix 40 ◌⟶*◌
  pub data ◌⟶*◌ (q : PacketQueue S) : PacketQueue S → Type 0 where
    here : q ⟶* q
    next : {r s : PacketQueue S} → q ⟶* r → r ⟶ s → q ⟶* s

  stamped-size :
      (q : PacketQueue S) (i : ℕ) (write : Packet → Packet)
      → ((p : Packet) → (write p).size ≡ p.size)
      → (k : ℕ) → ((modify q i write).buf k).size ≡ (q.buf k).size
  stamped-size q i write same k = ground (arith, same (q.buf i))

  pub stamps-IsValid :
      (q : PacketQueue S) (i : ℕ) (write : Packet → Packet)
      → ((p : Packet) → (write p).size ≡ p.size)
      → IsValid q
      → IsValid (modify q i write)
  unfolding pending
  stamps-IsValid q i write same v =
      let o = v.ordered in
      record {
        ordered = record {
          front_in = o.front_in;
          tx_in = o.tx_in;
          unacked_in = o.unacked_in;
          order = o.order;
        };
        few = v.few;
        sizes = λ k. omega (arith, stamped-size q i write same k, v.sizes k);
        queued =
            v.queued
            ∙ sym (
                total-window-size q.buf (modify q i write).buf q.size q.tx_idx (pending_count q)
                  (stamped-size q i write same));
      }

  step-IsValid : {q r : PacketQueue S} → q ⟶ r → IsValid q → IsValid r
  step-IsValid (takes_front q free) v = rw (front-free q free) (held_front-IsValid v)
  step-IsValid (writes_front q write used small) v = modify_front-IsValid write small v
  step-IsValid (queues q used room) v = front_next-IsValid signal v room
  step-IsValid (stamps q i write same) v = stamps-IsValid q i write same v
  step-IsValid (sends q some_wait) v = tx_next-IsValid signal v some_wait
  step-IsValid (settles q some_sent) v = unacked_next-IsValid v some_sent

  reach-IsValid : {q r : PacketQueue S} → q ⟶* r → IsValid q → IsValid r
  reach-IsValid here v = v
  reach-IsValid (next reached step) v = step-IsValid step (reach-IsValid reached v)

  -- However the threads interleave their operations on a new queue: as long as a packet is only queued
  -- with room for it, the cursors stay in order, and `m_bytesQueued` is exactly the number of bytes of
  -- the packets that wait.
  pub reached-IsValid :
      (idle : S) (memory : ℕ → Packet) {q : PacketQueue S}
      → ((i : ℕ) → (memory i).size ≤ 65535)
      → init idle memory ⟶* q
      → IsValid q
  reached-IsValid idle memory sizes reached = reach-IsValid reached (init-IsValid idle memory sizes)
