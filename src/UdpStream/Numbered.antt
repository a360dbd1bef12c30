-- ===== src/UdpStream/Numbered.antt =====
-- The packets of a stream by place and by number, and the bytes that they carry.
use adaptive_transport.Common.{
  ℕ, zero, suc, ◌+◌, ◌%◌, ◌^◌, ◌≤◌, ◌<◌, ◌≡◌, refl, sym, ap, ap₂, ◌∙◌, Option, none, some, List, [],
  ◌∷◌, ◌++◌, append-nil, append_assoc, length, arith,
}
use adaptive_transport.Packet.{Packet, payload}
use adaptive_transport.UdpStream.Send.Fill.{IsData}
use adaptive_transport.UdpStream.Send.Queued.{Cut}
use adaptive_transport.UdpStream.Receive.Order.{joined}

-- The packet at place `i` of a list.
abbrev pub nth : ℕ → List Packet → Option Packet
nth i [] = none
nth zero (p ∷ ps) = some p
nth (suc i) (p ∷ ps) = nth i ps

-- The payload of the `k`th packet, counted from 1.
abbrev pub chunks : List Packet → ℕ → List ℕ
chunks [] k = []
chunks (p ∷ ps) zero = []
chunks (p ∷ ps) (suc zero) = payload p
chunks (p ∷ ps) (suc (suc k)) = chunks ps (suc k)

-- `ps` carries `bytes` under consecutive numbers from `dseq` on, in pieces of any size.
abbrev pub Numbered : ℕ → List ℕ → List Packet → Type 0
Numbered dseq bytes [] = bytes ≡ []
Numbered dseq bytes (p ∷ ps) =
    (first rest : List ℕ) × (bytes ≡ first ++ rest)
    × IsData p dseq first
    × Numbered (dseq + 1) rest ps

pub Cut-Numbered :
    (dseq : ℕ) (msg : List ℕ) (ps : List Packet)
    → Cut dseq msg ps
    → dseq + length ps ≤ 2 ^ 31
    → Numbered dseq msg ps
Cut-Numbered dseq msg [] cut small = cut
Cut-Numbered dseq msg (p ∷ ps) (first, rest, whole, _, data_of, cut) small =
    let next : (dseq + 1) % 2 ^ 32 ≡ dseq + 1 = omega arith in
    (first, rest, whole, data_of, Cut-Numbered (dseq + 1) rest ps (rw next at cut) (omega arith))

pub Numbered-append :
    (dseq : ℕ) (msg more : List ℕ) (ps qs : List Packet)
    → Numbered dseq msg ps
    → Numbered (dseq + length ps) more qs
    → Numbered dseq (msg ++ more) (ps ++ qs)
Numbered-append dseq msg more [] qs none_yet later =
    let at : dseq + 0 ≡ dseq = omega arith in rw (none_yet, ← at) later
Numbered-append dseq msg more (p ∷ ps) qs (first, rest, whole, data_of, cut) later =
    let at : dseq + suc (length ps) ≡ dseq + 1 + length ps = omega arith in
    (
      first,
      rest ++ more,
      ap (λ (xs : List ℕ). xs ++ more) whole ∙ append_assoc first rest more,
      data_of,
      Numbered-append (dseq + 1) rest more ps qs cut (rw at at later),
    )

joined-cong :
    (f g : ℕ → List ℕ) (n : ℕ) → ((k : ℕ) → k < n → f (suc k) ≡ g (suc k)) → joined f n ≡ joined g n
joined-cong f g zero same = refl
joined-cong f g (suc n) same =
    ap₂ ◌++◌ (joined-cong f g n (λ k h. same k (omega arith))) (same n (omega arith))

joined-cons : (f : ℕ → List ℕ) (n : ℕ) → joined f (suc n) ≡ f 1 ++ joined (λ k. f (suc k)) n
joined-cons f zero = sym (append-nil (f 1))
joined-cons f (suc n) =
    ap (λ xs. xs ++ f (suc (suc n))) (joined-cons f n)
    ∙ append_assoc (f 1) (joined (λ k. f (suc k)) n) (f (suc (suc n)))

-- The payloads of the packets that carry a message, joined, are the message.
pub joined-Numbered :
    (dseq : ℕ) (msg : List ℕ) (ps : List Packet)
    → Numbered dseq msg ps
    → joined (chunks ps) (length ps) ≡ msg
joined-Numbered dseq msg [] e = sym e
joined-Numbered dseq msg (p ∷ ps) (first, rest, whole, data_of, cut) =
    joined-cons (chunks (p ∷ ps)) (length ps)
    ∙ ap₂ ◌++◌ data_of.content (
        joined-cong (λ k. chunks (p ∷ ps) (suc k)) (chunks ps) (length ps) (λ k h. refl)
        ∙ joined-Numbered (dseq + 1) rest ps cut)
    ∙ sym whole

-- The packet at place `i` is a data packet under the `i`th number.
pub nth-Numbered :
    (dseq : ℕ) (msg : List ℕ) (ps : List Packet) (i : ℕ) {p : Packet}
    → Numbered dseq msg ps
    → nth i ps ≡ some p
    → ((bytes : List ℕ) × IsData p (dseq + i) bytes) × (i < length ps)
nth-Numbered dseq msg [] i cut e = absurd (ground (arith, e))
nth-Numbered dseq msg (q ∷ qs) zero {p} (first, rest, whole, data_of, cut) e =
    let same : p ≡ q = cc e in
    let at : dseq + 0 ≡ dseq = omega arith in rw (same, at) ((first, data_of), omega arith)
nth-Numbered dseq msg (q ∷ qs) (suc i) {p} (first, rest, whole, data_of, cut) e =
    let at : dseq + 1 + i ≡ dseq + suc i = omega arith in
    let (later, inside) = nth-Numbered (dseq + 1) rest qs i {p = p} cut e in
    (rw at at later, omega arith)

pub nth-chunks :
    (i : ℕ) (ps : List Packet) {p : Packet} → nth i ps ≡ some p → payload p ≡ chunks ps (suc i)
nth-chunks i [] e = absurd (ground (arith, e))
nth-chunks zero (q ∷ qs) {p} e = let same : p ≡ q = cc e in ap payload same
nth-chunks (suc i) (q ∷ qs) {p} e = nth-chunks i qs {p = p} e

pub nth-lt : (i : ℕ) (ps : List Packet) → i < length ps → (p : Packet) × (nth i ps ≡ some p)
nth-lt i [] h = absurd (omega arith)
nth-lt zero (p ∷ ps) h = (p, refl)
nth-lt (suc i) (p ∷ ps) h = nth-lt i ps (omega arith)

-- More packets behind the first ones change nothing for these.
pub nth-append :
    (i : ℕ) (ps qs : List Packet) {p : Packet} → nth i ps ≡ some p → nth i (ps ++ qs) ≡ some p
nth-append i [] qs e = absurd (ground (arith, e))
nth-append zero (x ∷ ps) qs e = e
nth-append (suc i) (x ∷ ps) qs {p} e = nth-append i ps qs {p = p} e

pub nth-append_later : (i : ℕ) (ps qs : List Packet) → nth (length ps + i) (ps ++ qs) ≡ nth i qs
nth-append_later i [] qs = ap (λ (k : ℕ). nth k qs) (let e : 0 + i ≡ i = omega arith in e)
nth-append_later i (x ∷ ps) qs =
    ap (λ (k : ℕ). nth k (x ∷ ps ++ qs))
      (let e : suc (length ps) + i ≡ suc (length ps + i) = omega arith in e)
    ∙ nth-append_later i ps qs

pub chunks-append :
    (ps qs : List Packet) (k : ℕ) → k < length ps → chunks (ps ++ qs) (suc k) ≡ chunks ps (suc k)
chunks-append [] qs k h = absurd (omega arith)
chunks-append (x ∷ ps) qs zero h = refl
chunks-append (x ∷ ps) qs (suc k) h = chunks-append ps qs k (omega arith)

pub joined-chunks-append :
    (ps qs : List Packet) (n : ℕ)
    → n ≤ length ps
    → joined (chunks (ps ++ qs)) n ≡ joined (chunks ps) n
joined-chunks-append ps qs n h =
    joined-cong (chunks (ps ++ qs)) (chunks ps) n (λ k lt. chunks-append ps qs k (omega arith))
