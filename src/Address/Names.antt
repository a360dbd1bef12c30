-- ===== src/Address/Names.antt =====
-- The text of an address names it: what `ip_port` gives is resolved to an equal address, also where it has
-- been shortened.
use adaptive_transport.Common.{
  ◌++◌, false, length-drop, sym, take-append-drop, ◌⊎◌, ℕ, ◌%◌, ◌^◌, ◌<◌, ◌≡◌, refl, ap, ◌∙◌, inl,
  inr, Bool, Bool-cases, true, not, ◌&&◌, List, [], ◌∷◌, ltb, length, take, drop, arith,
}
use adaptive_transport.Address.{
  Address, sockaddr_size, ok, exited, no_address, NameInfo, named, AddrInfo, found, same_bytes,
  same_address, needs_lookup, decimal, mapped_prefix, resolve, shorten, ip_port,
}
use adaptive_transport.Address.Decimal.{stoi-decimal}

pub same_bytes-eq : (xs ys : List ℕ) → same_bytes xs ys ≡ true → xs ≡ ys
unfolding same_bytes
same_bytes-eq [] [] e = refl
same_bytes-eq [] (y ∷ ys) e = cc
same_bytes-eq (x ∷ xs) [] e = cc
same_bytes-eq (x ∷ xs) (y ∷ ys) e = ground (arith, same_bytes-eq xs ys)

mapped_text :
    (ip : List ℕ)
    → (ltb 7 (length ip) && same_bytes (take 7 ip) mapped_prefix) ≡ true
    → ip ≡ mapped_prefix ++ drop 7 ip
mapped_text ip e =
    sym (take-append-drop 7 ip)
    ∙ ap (λ (xs : List ℕ). xs ++ drop 7 ip)
        (same_bytes-eq (take 7 ip) mapped_prefix (ground (arith, e)))

-- The rest of such a text is not empty.
mapped_rest :
    (ip : List ℕ)
    → (ltb 7 (length ip) && same_bytes (take 7 ip) mapped_prefix) ≡ true
    → (c : ℕ) × (rest : List ℕ) × (drop 7 ip ≡ c ∷ rest)
mapped_rest ip e = by_cut (drop 7 ip) refl
  where
    by_cut : (xs : List ℕ) → drop 7 ip ≡ xs → (c : ℕ) × (rest : List ℕ) × (xs ≡ c ∷ rest)
    by_cut [] cut = absurd (ground (arith, e, length-drop 7 ip, ap length cut))
    by_cut (c ∷ rest) cut = (c, rest, refl)

resolve-cases :
    (find_host : Bool → List ℕ → List ℕ → AddrInfo) (name_info : List ℕ → ℕ → NameInfo)
    (hostname service : List ℕ)
    → (resolve find_host name_info hostname service ≡ exited)
      ⊎ ((b : Address) × (resolve find_host name_info hostname service ≡ ok b))
unfolding resolve
resolve-cases find_host name_info hostname service =
    by_answer (find_host (not (needs_lookup hostname)) hostname service) refl
  where
    by_answer :
        (answer : AddrInfo)
        → find_host (not (needs_lookup hostname)) hostname service ≡ answer
        → (resolve find_host name_info hostname service ≡ exited)
          ⊎ ((b : Address) × (resolve find_host name_info hostname service ≡ ok b))
    by_answer (no_address ret) e = inl (rw (e, resolve) refl)
    by_answer (found addr addrlen) e =
        inr (record { addrlen = addrlen; addr = take sockaddr_size addr }, rw (e, resolve) refl)

-- A text behind the prefix passes the test, and is cut off to itself.
prefixed_text :
    (ip rest : List ℕ) (c : ℕ)
    → ip ≡ mapped_prefix ++ c ∷ rest
    → ((ltb 7 (length ip) && same_bytes (take 7 ip) mapped_prefix) ≡ true) × (drop 7 ip ≡ c ∷ rest)
unfolding same_bytes
prefixed_text ip rest c e = (rw e (ground arith), ap (drop 7) e)

-- A shorter text of the name `ip` with port `k` that resolves to an address equal to `a`.
abbrev pub IsShorter :
    (Bool → List ℕ → List ℕ → AddrInfo)
    → (List ℕ → ℕ → NameInfo)
    → Address
    → List ℕ
    → ℕ
    → List ℕ
    → Type 0
IsShorter find_host name_info a ip k text =
    (c : ℕ) × (rest : List ℕ) × (text ≡ c ∷ rest)
    × (ip ≡ mapped_prefix ++ text)
    × (b : Address) × (resolve find_host name_info text (decimal k) ≡ ok b)
    × (same_address b a ≡ true)

module _ (find_host : Bool → List ℕ → List ℕ → AddrInfo) (name_info : List ℕ → ℕ → NameInfo)
    (a : Address) {ip : List ℕ} (k : ℕ) (small : k < 2 ^ 16)
    (names : name_info a.addr a.addrlen ≡ named ip (decimal k)) where
  shortened :
      {text : List ℕ}
      → shorten find_host name_info a ip (decimal k) ≡ ok text
      → ip_port find_host name_info a ≡ ok (text, k)
  unfolding ip_port
  shortened {text} e =
      let fits : k % 2 ^ 16 ≡ k = omega arith in rw (names, ip_port, e, stoi-decimal k, fits) refl

  none-IsShorter :
      (ltb 7 (length ip) && same_bytes (take 7 ip) mapped_prefix) ≡ false
      → ¬ ((text : List ℕ) × IsShorter find_host name_info a ip k text)
  none-IsShorter e (text, (c, rest, starts, whole, b, runs, same)) =
      let hit =
        (prefixed_text ip rest c (whole ∙ ap (λ (xs : List ℕ). mapped_prefix ++ xs) starts)).0 in
      ground (arith, hit, e)

  unequal-IsShorter :
      (b : Address)
      → resolve find_host name_info (drop 7 ip) (decimal k) ≡ ok b
      → same_address b a ≡ false
      → ¬ ((text : List ℕ) × IsShorter find_host name_info a ip k text)
  unequal-IsShorter b runs other (text, (c, rest, starts, whole, b', runs', same)) =
      let cut : drop 7 ip ≡ text = ap (drop 7) whole in
      let equal : b ≡ b' = cc (runs, runs', cut) in
      let clash : same_address b a ≡ true = ap (λ (x : Address). same_address x a) equal ∙ same in
      ground (arith, clash, other)

  -- Whatever `getaddrinfo` gives, where `getnameinfo` gives a text and the decimal number of a port of
  -- 16 bits: either `ip_port` ends the program, and then the text is the mapped prefix and a rest for
  -- which `Address (hostname, service)` ends it; or it returns the port and a shorter text, not empty,
  -- that with the prefix in front is the whole text, and from which an address is made that is equal
  -- to this one; or it returns the port and the whole text, and then there is no such shorter text.
  pub ip_port_lem :
      ((ip_port find_host name_info a ≡ exited)
        × (resolve find_host name_info (drop 7 ip) (decimal k) ≡ exited)
        × (ip ≡ mapped_prefix ++ drop 7 ip))
      ⊎ (((text : List ℕ) × (ip_port find_host name_info a ≡ ok (text, k))
            × IsShorter find_host name_info a ip k text)
          ⊎ ((ip_port find_host name_info a ≡ ok (ip, k))
              × (¬ ((text : List ℕ) × IsShorter find_host name_info a ip k text))))
  unfolding ip_port shorten
  ip_port_lem = elim (Bool-cases (ltb 7 (length ip) && same_bytes (take 7 ip) mapped_prefix)) [
    | inr e ↦ inr (inr (shortened (rw e refl), none-IsShorter e))
    | inl e ↦
        let whole = mapped_text ip e in
        elim (resolve-cases find_host name_info (drop 7 ip) (decimal k)) [
          | inl fails ↦ inl (rw (names, ip_port, e, fails) refl, fails, whole)
          | inr (b, runs) ↦ elim (Bool-cases (same_address b a)) [
            | inl same ↦
                let (c, rest, starts) = mapped_rest ip e in
                inr (
                  inl (
                    drop 7 ip,
                    shortened (rw (e, runs, same) refl),
                    (c, rest, starts, whole, b, runs, same),
                  ))
            | inr other ↦
                inr (inr (shortened (rw (e, runs, other) refl), unequal-IsShorter b runs other))
          ]
        ]
  ]
