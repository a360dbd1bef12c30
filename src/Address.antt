-- ===== src/Address.antt =====
-- src/Address.hpp and src/Address.cpp: a socket address, from a name and back to a text.
pub mod Decimal
pub mod Names
mod Tests
use adaptive_transport.Common.{
  ℕ, zero, suc, ◌+◌, ◌-◌, ◌*◌, ◌/◌, ◌%◌, ◌^◌, Bool, true, false, ◌&&◌, ◌||◌, not, List, [], ◌∷◌,
  ◌++◌, ◌==◌, ltb, if◌then◌else◌, length, take, drop,
}

-- `addr` is the `sockaddr` as bytes.
pub record Address : Type 0 where
  pub addrlen : ℕ
  pub addr : List ℕ

-- `sizeof (sockaddr)`.
abbrev pub sockaddr_size : ℕ
sockaddr_size = 16

-- A call that returns, `exit (1)`, or an exception of `std::stoi`.
pub data Outcome (A : Type 0) : Type 0 where
  ok : A → Outcome A
  exited : Outcome A
  invalid_argument : Outcome A

infixl 5 ◌>>=◌
abbrev pub ◌>>=◌ : {A B : Type 0} → Outcome A → (A → Outcome B) → Outcome B
ok a >>= f = f a
exited >>= f = exited
invalid_argument >>= f = invalid_argument

-- What `getnameinfo` gives: its error, or the numeric texts of the host and of the service.
pub data NameInfo : Type 0 where
  name_failed : ℕ → NameInfo
  named : (ip port : List ℕ) → NameInfo

-- What `getaddrinfo` gives: its error, or the first address of its list, whole, with its length.
pub data AddrInfo : Type 0 where
  no_address : ℕ → AddrInfo
  found : (addr : List ℕ) (addrlen : ℕ) → AddrInfo

-- `Address (void)`, which leaves the bytes as they are.
abbrev pub init : List ℕ → Address
init memory = record { addrlen = 0; addr = memory }

-- `Address (const sockaddr &, socklen_t)`.
abbrev pub of_sockaddr : List ℕ → ℕ → Address
of_sockaddr other otherlen = record { addrlen = otherlen; addr = other }

-- Equality of texts, and of so many bytes.
unfoldable pub same_bytes : List ℕ → List ℕ → Bool
same_bytes [] [] = true
same_bytes [] (y ∷ ys) = false
same_bytes (x ∷ xs) [] = false
same_bytes (x ∷ xs) (y ∷ ys) = x == y && same_bytes xs ys

-- `operator==`: memcmp of the `sockaddr`s; the lengths are not compared.
unfoldable pub same_address : Address → Address → Bool
unfolding same_bytes
same_address a b = same_bytes (take sockaddr_size a.addr) (take sockaddr_size b.addr)

-- `any_of` with the test for a character that is neither `'.'` nor a digit (nor `'/'`).
unfoldable pub needs_lookup : List ℕ → Bool
needs_lookup [] = false
needs_lookup (c ∷ hostname) = (ltb c 46 || ltb 57 c) || needs_lookup hostname

-- `std::stoi` for a text with no space or sign before its digits.
unfoldable pub digits_value : List ℕ → ℕ → ℕ
digits_value [] value = value
digits_value (c ∷ text) value =
    if ltb c 48 || ltb 57 c then value else digits_value text (value * 10 + (c - 48))

unfoldable pub stoi : List ℕ → Outcome ℕ
unfolding digits_value
stoi [] = invalid_argument
stoi (c ∷ text) = if ltb c 48 || ltb 57 c then invalid_argument else ok (digits_value (c ∷ text) 0)

-- `std::to_string` of a number; each round takes a digit off.
unfoldable pub digits_from : ℕ → ℕ → List ℕ → List ℕ
digits_from zero n text = text
digits_from (suc fuel) n text =
    let rest = digits_from fuel (n / 10) ((48 + n % 10) ∷ text) in
    if ltb n 10 then (48 + n) ∷ text else rest

unfoldable pub decimal : ℕ → List ℕ
unfolding digits_from
decimal n = digits_from (suc n) n []

-- "::ffff:".
abbrev pub mapped_prefix : List ℕ
mapped_prefix = 58 ∷ 58 ∷ 102 ∷ 102 ∷ 102 ∷ 102 ∷ 58 ∷ []

-- `find_host`: `getaddrinfo`, with whether AI_NUMERICHOST is among its hints; `name_info`: `getnameinfo` with
-- both numeric flags.
module _ (find_host : Bool → (hostname service : List ℕ) → AddrInfo)
    (name_info : (addr : List ℕ) (addrlen : ℕ) → NameInfo) where
  -- `Address (hostname, service)`. A `sockaddr` takes the first bytes of the address.
  unfoldable pub resolve : (hostname service : List ℕ) → Outcome Address
  unfolding needs_lookup
  resolve hostname service = elim (find_host (not (needs_lookup hostname)) hostname service) [
    | no_address ret ↦ exited
    | found addr addrlen ↦ ok (record { addrlen = addrlen; addr = take sockaddr_size addr })
  ]

  -- The attempt of `ip_port` to shorten a mapped address.
  unfoldable pub shorten : Address → (ip port : List ℕ) → Outcome (List ℕ)
  unfolding resolve same_address same_bytes
  shorten a ip port =
      if ltb 7 (length ip) && same_bytes (take 7 ip) mapped_prefix
      then (do
        candidate ← resolve (drop 7 ip) port
        ok (if same_address candidate a then drop 7 ip else ip))
      else ok ip

  unfoldable pub ip_port : Address → Outcome (List ℕ × ℕ)
  unfolding shorten stoi
  ip_port a = elim (name_info a.addr a.addrlen) [
    | name_failed ret ↦ exited
    | named ip port ↦ do ip' ← shorten a ip port; n ← stoi port; ok (ip', n % 2 ^ 16)
  ]

  -- The host and the port, with a colon between them.
  unfoldable pub to_string : Address → Outcome (List ℕ)
  unfolding ip_port decimal
  to_string a = do (ip, port) ← ip_port a; ok (ip ++ 58 ∷ decimal port)
