-- ===== src/UdpStream/Setup.antt =====
-- src/UDPStream.cpp: the constructor of `UDPStream`, its accessors, and the wait of its destructor. The threads that it starts
-- are the rounds of the other modules; starting and joining them is left out.
pub mod Closing
use adaptive_transport.Common.{
  ℕ, ◌*◌, Bool, true, false, Option, none, some, List, [], ◌∷◌, ◌==◌, if◌then◌else◌,
}
use adaptive_transport.CircBuff
use adaptive_transport.CircBuff.{CircBuff, used, rptr_advance, read_bytes}
use adaptive_transport.PacketQueue.{PacketQueue}

-- The fields that no other record has; `peer` is of the type of addresses `A`, and `log_file` says whether
-- `m_fh` is open.
pub record Settings (A S : Type 0) : Type 0 where
  pub bandwidth : ℕ
  pub mtu : ℕ
  pub update_bandwidth : Bool
  pub done : Bool
  pub next_seq : ℕ
  pub recv_buff : CircBuff
  pub dseq : ℕ
  pub ts_updated : ℕ
  pub log_file : Bool
  pub queue : PacketQueue S
  pub peer : A

module _ {A S : Type 0} where
  -- `UDPStream::UDPStream`, on pages of `page_size` bytes.
  unfoldable pub init : (page_size : ℕ) → PacketQueue S → A → Settings A S
  init page_size empty no_address = record {
    bandwidth = 1024 * 1024;
    mtu = 1400;
    update_bandwidth = true;
    done = false;
    next_seq = 1;
    recv_buff = CircBuff.init page_size 1024;
    dseq = 1;
    ts_updated = 0;
    log_file = false;
    queue = empty;
    peer = no_address;
  }

  -- `setLogfile`: whether a file is open after it; `opens` is what `fopen` says of a name that is given.
  unfoldable pub set_logfile : Settings A S → Option Bool → Settings A S
  set_logfile s none = record s { log_file = false }
  set_logfile s (some opens) = record s { log_file = opens }

  -- The `n` bytes at `rptr ()`, for at most as many as are held.
  unfoldable pub rptr_bytes : Settings A S → ℕ → List ℕ
  rptr_bytes s n = read_bytes s.recv_buff n

  unfoldable pub advance_rptr : Settings A S → ℕ → Settings A S
  advance_rptr s num = record s { recv_buff = rptr_advance s.recv_buff num }

  unfoldable pub readable_bytes : Settings A S → ℕ
  readable_bytes s = used s.recv_buff

  unfoldable pub set_remote : Settings A S → A → Settings A S
  set_remote s addr = record s { peer = addr }

module _ {S : Type 0} where
  -- `bytesQueued`.
  abbrev pub bytes_waiting : PacketQueue S → ℕ
  bytes_waiting q = q.bytes_queued

  -- `UDPStream::~UDPStream`, up to its joins, for the states of the queue at which it looks: the one at which the
  -- threads are told to end, or none where it still waits.
  unfoldable pub close : List (PacketQueue S) → Option (PacketQueue S)
  close [] = none
  close (q ∷ looks) = let rest = close looks in if bytes_waiting q == 0 then some q else rest
