-- ===== src/UdpStream/Session/Steps.antt =====
-- Each step of either end keeps what holds between the two ends.
use adaptive_transport.Common.{ℕ, ◌≡◌, sym, subst, inr, false, List, ◌++◌, length, arith}
use adaptive_transport.Packet.{Packet}
use adaptive_transport.Packet.Header
use adaptive_transport.UdpSocket.{Control, packet_timestamp, received}
use adaptive_transport.UdpSocket.Whole.{Same}
use adaptive_transport.UdpStream.Receive.Complete.{IsKept}
use adaptive_transport.UdpStream.Incoming.{Endpoint, on_ack, incoming}
use adaptive_transport.UdpStream.Incoming.Ack.{taken_in, taken_in-Same, incoming-ack-eq}
use adaptive_transport.UdpStream.Session.{
  Session, link, stream, ◌⟶◌, ◌⟶*◌, sends, transmits, arrives, acked, settles, reads, start, next,
}
use adaptive_transport.UdpStream.Session.Datagram.{All-OneOf, Carries}
use adaptive_transport.UdpStream.Session.Invariant.{Acks, Here, Keeps, There, Inv-append}
use adaptive_transport.UdpStream.Session.Sending.{added, sends-Here, sends-Keeps}
use adaptive_transport.UdpStream.Session.Transmitting.{transmitted-Here, transmitted-Keeps}
use adaptive_transport.UdpStream.Session.Acking.{acked-Here, acked-Keeps}
use adaptive_transport.UdpStream.Session.Settling.{settles-Here, settles-Keeps}
use adaptive_transport.UdpStream.Session.Arriving.{arrived-There, arrived-Keeps}
use adaptive_transport.UdpStream.Session.Reading.{reads-There, reads-Keeps}

module _ {S R A : Type 0} where
  -- The text so far has been cut into the packets `ps`.
  pub record Holds (s : Session S R A) (ps : List Packet) : Type 0 where
    pub here : Here s.here.queue s.dseq s.datagrams s.text ps
    pub there : There s.there s.taken ps
    pub keeps : Keeps s.here.queue s.there.receiver (length ps)
    pub pkt : Header.IsValid s.here.pkt

module _ {S R A : Type 0} (signal : S → S) (credit : ℕ → ℕ → ℕ → ℕ) (observe : R → ℕ → R)
    (no_address : A) where
  acked-Holds :
      (s : Session S R A) {ps : List Packet} (from : A) {w : List ℕ} (cmsg : Control) {t : ℕ}
      {to : Endpoint S A}
      → Holds s ps
      → Acks s.there.receiver w
      → packet_timestamp cmsg ≡ inr t
      → incoming no_address s.here (received from w false false cmsg) ≡ inr to
      → Holds (record s { here = to }) ps
  acked-Holds s {ps} from {w} cmsg {t} {to} v a time runs = record {
    here =
        subst (λ (x : Endpoint S A). Here x.queue s.dseq s.datagrams s.text ps) ends
          (acked-Here v.here r);
    there = v.there;
    keeps =
        subst (λ (x : Endpoint S A). Keeps x.queue s.there.receiver (length ps)) ends
          (acked-Keeps v.here r (subst (IsKept s.there.receiver) (sym same.number) a.kept) v.keeps);
    pkt = subst (λ (x : Endpoint S A). Header.IsValid x.pkt) ends same.valid;
  }
    where
      r : Packet
      r = taken_in s.here.pkt a.ack t

      same : Same r a.ack t
      same = taken_in-Same t a.valid v.pkt (omega (arith, a.long)) (omega (arith, a.long))

      ends : record s.here { queue = on_ack s.here.queue r; peer = from; pkt = r } ≡ to
      ends =
          let found : incoming no_address s.here (received from w false false cmsg)
              ≡ inr (record s.here { queue = on_ack s.here.queue r; peer = from; pkt = r }) =
            rw a.bytes (
              incoming-ack-eq no_address from s.here a.ack cmsg v.pkt a.valid a.kind
                (omega (arith, a.long)) (omega (arith, a.long)) time) in
          cc (found, runs)

  step-Holds :
      {s t : Session S R A} (ps : List Packet)
      → ◌⟶◌ signal credit observe no_address s t
      → Holds s ps
      → (ps' : List Packet) × Holds t ps'
  step-Holds ps (sends s msg bytes small room runs last) v =
      let qs : List Packet = added signal v.here msg bytes small room runs last in
      (
        ps ++ qs,
        record {
          here = sends-Here signal v.here msg bytes small room runs last;
          there = record {
            order = Inv-append ps qs v.there.order;
            drained = v.there.drained;
            buffer = v.there.buffer;
            pkt = v.there.pkt;
            acks = v.there.acks;
          };
          keeps = sends-Keeps signal v.here msg bytes small room runs last v.keeps;
          pkt = v.pkt;
        },
      )
  step-Holds ps (transmits s wakes tries now taken passes unstamped runs) v = (
    ps,
    record {
      here = transmitted-Here signal credit wakes tries now (link s) v.here taken passes runs;
      there = v.there;
      keeps =
          transmitted-Keeps signal credit wakes tries now (link s) v.here taken passes runs
            unstamped v.keeps;
      pkt = v.pkt;
    },
  )
  step-Holds ps (arrives s from w cmsg one room time small runs) v =
      let c : Carries ps w = All-OneOf (Carries ps) w s.datagrams v.here.sent one in
      (
        ps,
        record {
          here = v.here;
          there = arrived-There no_address from w v.here v.there c room cmsg time small runs;
          keeps =
              arrived-Keeps no_address from w v.here v.there c room cmsg time small runs v.keeps;
          pkt = v.pkt;
        },
      )
  step-Holds ps (acked s from w cmsg one time runs) v = (
    ps,
    acked-Holds s from cmsg v (All-OneOf (Acks s.there.receiver) w _ v.there.acks one) time runs,
  )
  step-Holds ps (settles s now timeout room causal runs) v = (
    ps,
    record {
      here = settles-Here signal observe now timeout (stream s) v.here room causal runs;
      there = v.there;
      keeps = settles-Keeps signal observe now timeout (stream s) v.here room causal runs v.keeps;
      pkt = v.pkt;
    },
  )
  step-Holds ps (reads s n enough) v = (
    ps,
    record {
      here = v.here;
      there = reads-There n v.there enough;
      keeps = reads-Keeps s.there n v.keeps;
      pkt = v.pkt;
    },
  )

  pub reach-Holds :
      {s t : Session S R A} (ps : List Packet)
      → ◌⟶*◌ signal credit observe no_address s t
      → Holds s ps
      → (ps' : List Packet) × Holds t ps'
  reach-Holds ps start v = (ps, v)
  reach-Holds ps (next reached step) v =
      let (qs, w) = reach-Holds ps reached v in step-Holds qs step w
