-- ===== src/Address/Tests.antt =====
-- An address under a mapped name.
use adaptive_transport.Common.{
  ℕ, ◌⊎◌, drop, ◌≡◌, refl, ◌&&◌, Bool, List, [], ◌∷◌, ◌++◌, ◌==◌, if◌then◌else◌, replicate, arith,
}
use adaptive_transport.Address.{
  Address, ok, exited, no_address, NameInfo, named, name_failed, AddrInfo, found, same_bytes,
  same_address, decimal, mapped_prefix, resolve, ip_port,
}
use adaptive_transport.Address.Names.{IsShorter, ip_port_lem}

abbrev bytes : List ℕ
bytes = replicate 16 7

abbrev full_name : List ℕ
full_name = mapped_prefix ++ 49 ∷ []

abbrev name_info : List ℕ → ℕ → NameInfo
name_info addr len =
    if same_bytes addr bytes && len == 16 then named full_name (decimal 80) else name_failed 1

abbrev find_host : Bool → List ℕ → List ℕ → AddrInfo
find_host flag hostname service = found bytes 16

abbrev address : Address
address = record { addrlen = 16; addr = bytes }

ip_port_lem_example :
    ((ip_port find_host name_info address ≡ exited)
      × (resolve find_host name_info (drop 7 full_name) (decimal 80) ≡ exited)
      × (full_name ≡ mapped_prefix ++ drop 7 full_name))
    ⊎ (((text : List ℕ) × (ip_port find_host name_info address ≡ ok (text, 80))
          × IsShorter find_host name_info address full_name 80 text)
        ⊎ ((ip_port find_host name_info address ≡ ok (full_name, 80))
            × (¬ ((text : List ℕ) × IsShorter find_host name_info address full_name 80 text))))
unfolding same_bytes
ip_port_lem_example = ip_port_lem find_host name_info address {ip = full_name} 80 (omega arith) refl

short : ip_port find_host name_info address ≡ ok (49 ∷ [], 80)
unfolding ip_port decimal same_bytes same_address resolve
short = refl

-- The rest of an IPv4-translated name is no address: the call that formats it ends the program.
abbrev no_host : Bool → List ℕ → List ℕ → AddrInfo
no_host flag hostname service = no_address 1

translated : ip_port no_host name_info address ≡ exited
unfolding ip_port same_bytes resolve
translated = refl
