-- ===== src/UdpStream/Session/Reliable.antt =====
-- However the steps of both ends and the network interleave: what is read is the text, from its first
-- byte on, and a packet is only let go once it is received.
use adaptive_transport.Common.{
  ℕ, zero, suc, ◌+◌, ◌-◌, ◌≤◌, ◌≡◌, refl, sym, ap, ◌∙◌, inl, inr, List, [], ◌∷◌, ◌++◌, append-nil,
  append_assoc, length, arith, dec_le,
}
use adaptive_transport.Common.Bytes.{IsBytes}
use adaptive_transport.Packet
use adaptive_transport.Packet.{Packet, mtu, wire}
use adaptive_transport.Packet.Header
use adaptive_transport.CircBuff
use adaptive_transport.CircBuff.{CircBuff}
use adaptive_transport.CircBuff.Refine
use adaptive_transport.CircBuff.Refine.{contents, length-contents, used-gap}
use adaptive_transport.PacketQueue
use adaptive_transport.PacketQueue.Invariant.{init-IsValid}
use adaptive_transport.PacketQueue.View.{in_flight, pending}
use adaptive_transport.UdpStream.Held.{lookup}
use adaptive_transport.UdpStream.Receive.Order.{joined}
use adaptive_transport.UdpStream.Numbered.{chunks, joined-Numbered}
use adaptive_transport.UdpStream.Session.{Session, new_end, new_session, ◌⟶*◌}
use adaptive_transport.UdpStream.Session.Steps.{Holds, reach-Holds}

-- A packet's memory: whole, and bytes.
abbrev pub IsMemory : List ℕ → Type 0
IsMemory buf = (length buf ≡ mtu + 4) × IsBytes buf

IsMemory-Header : {buf : List ℕ} → IsMemory buf → Header.IsValid (Packet.init buf)
IsMemory-Header m = record { full = m.0; bytes = m.1 }

nil_of_length : (xs : List ℕ) → length xs ≡ 0 → xs ≡ []
nil_of_length [] e = refl
nil_of_length (x ∷ xs) e = absurd (omega arith)

-- A new ring holds nothing.
contents-new :
    (page_size : ℕ)
    → Refine.IsValid (CircBuff.init page_size 1024)
    → contents (CircBuff.init page_size 1024) ≡ []
unfolding CircBuff.init
contents-new page_size ring =
    nil_of_length (contents (CircBuff.init page_size 1024))
      (omega (arith, length-contents (CircBuff.init page_size 1024), used-gap ring))

joined-split :
    (f : ℕ → List ℕ) (m n : ℕ) → m ≤ n → (rest : List ℕ) × (joined f n ≡ joined f m ++ rest)
joined-split f m zero le = ([], let e : m ≡ 0 = omega arith in rw e refl)
joined-split f m (suc n) le = elim (dec_le m n) [
  | yes before ↦
      let (rest, same) = joined-split f m n before in
      (
        rest ++ f (suc n),
        ap (λ xs. xs ++ f (suc n)) same ∙ append_assoc (joined f m) rest (f (suc n)),
      )
  | no last ↦ let e : m ≡ suc n = omega arith in ([], rw e (sym (append-nil (joined f (suc n)))))
]

module _ {S R A : Type 0} {s : Session S R A} {ps : List Packet} (v : Holds s ps) where
  text-prefix :
      (rest : List ℕ) × (s.text ≡ (s.taken ++ contents s.there.receiver.recv_buff) ++ rest)
  text-prefix =
      let n = s.there.receiver.next_seq - 1 in
      let (rest, split) =
        joined-split (chunks ps) n (length ps) (omega (arith, v.there.order.high)) in
      (
        rest,
        sym (joined-Numbered 1 s.text ps v.here.numbered)
            ∙ split
            ∙ ap (λ xs. xs ++ rest) (sym v.there.order.delivered),
      )

  text-whole :
      in_flight s.here.queue ≡ []
      → pending s.here.queue ≡ []
      → s.text ≡ s.taken ++ contents s.there.receiver.recv_buff
  text-whole none_fly none_wait =
      sym (joined-Numbered 1 s.text ps v.here.numbered)
      ∙ ap (joined (chunks ps)) (sym (last (dec_le s.there.receiver.next_seq (length ps))))
      ∙ sym v.there.order.delivered
    where
      missing : s.there.receiver.next_seq ≤ length ps → ⊥
      missing h = elim (v.keeps.covered s.there.receiver.next_seq v.there.order.low h) [
        | inl (inl before) ↦ absurd (omega arith)
        | inl (inr held) ↦ held v.there.drained
        | inr (inl flies) ↦ rw none_fly at flies
        | inr (inr waits) ↦ rw none_wait at waits
      ]

      last : Dec (s.there.receiver.next_seq ≤ length ps) → s.there.receiver.next_seq - 1 ≡ length ps
      last (yes h) = absurd (missing h)
      last (no h) = omega (arith, v.there.order.high)

module _ {S R A : Type 0} (signal : S → S) (credit : ℕ → ℕ → ℕ → ℕ) (observe : R → ℕ → R)
    (no_address : A) (idle : S) (rtt : R) (page_size : ℕ)
    (ring : Refine.IsValid (CircBuff.init page_size 1024)) (cells cells' : ℕ → List ℕ)
    (buf buf' : List ℕ) (memory : (i : ℕ) → IsMemory (cells i)) (own : IsMemory buf)
    (own' : IsMemory buf') where
  abbrev fresh : Session S R A
  fresh =
      new_session (new_end idle cells buf page_size no_address)
        (new_end idle cells' buf' page_size no_address) rtt

  fresh-Holds : Holds fresh []
  unfolding PacketQueue.init pending in_flight lookup
  fresh-Holds = record {
    here = record {
      ready = record {
        valid = init-IsValid idle (λ i. Packet.init (cells i)) (λ i. omega arith);
        free = refl;
        slots = λ i. IsMemory-Header (memory i);
        wraps = omega arith;
      };
      fits = λ i. omega arith;
      numbered = refl;
      counted = refl;
      few = omega arith;
      waits = tt;
      flies = tt;
      sent = tt;
    };
    there = record {
      order = record {
        low = omega arith;
        high = omega arith;
        held = λ k v e. cc;
        delivered = contents-new page_size ring;
      };
      drained = refl;
      buffer = ring;
      pkt = IsMemory-Header own';
      acks = tt;
    };
    keeps = record { stamped = tt; covered = λ k lo hi. absurd (omega arith) };
    pkt = IsMemory-Header own;
  }

  -- Between two such ends, in every state that is reached so: what the reader has taken and what waits
  -- for it are together the first bytes of what `send` was given, in order and once each.
  pub read_prefix :
      {s : Session S R A}
      → ◌⟶*◌ signal credit observe no_address fresh s
      → (rest : List ℕ) × (s.text ≡ (s.taken ++ contents s.there.receiver.recv_buff) ++ rest)
  read_prefix reached =
      text-prefix (reach-Holds signal credit observe no_address [] reached fresh-Holds).1

  -- Between two new ends, one of which sends, whatever `send` is given, however the rounds of the
  -- threads at both ends interleave, over a network that loses, repeats and reorders datagrams but
  -- leaves them whole, while the receiver's buffer has room, the sender's queue has room, the numbers
  -- last, no ack is stamped before its packet and no packet is sent from a slot that was acked before:
  -- as soon as the sender's queue is empty, nothing waiting and nothing in flight, what the reader has
  -- taken and what waits for it are together exactly what `send` was given. So no packet is let go
  -- before it is received.
  pub nothing_lost :
      {s : Session S R A}
      → ◌⟶*◌ signal credit observe no_address fresh s
      → in_flight s.here.queue ≡ []
      → pending s.here.queue ≡ []
      → s.text ≡ s.taken ++ contents s.there.receiver.recv_buff
  nothing_lost reached none_fly none_wait =
      text-whole (reach-Holds signal credit observe no_address [] reached fresh-Holds).1 none_fly
        none_wait
