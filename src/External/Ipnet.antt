-- ===== src/External/Ipnet.antt =====
-- The `ipnet` crate's `Ipv4Net`, as crates/wiremesh-policy and crates/wiremesh-enforcer use it.
use wire_mesh.Common.{
  ℕ, ◌-◌, ◌/◌, ◌^◌, ◌≤◌, ◌<◌, String, ◌≡◌, ◌↔◌, Bool, true, ◌&&◌, Option, some, leb, ◌==◌,
}

-- The bits of an address above the host part of a network.
abbrev pub top_bits : ℕ → ℕ → ℕ
top_bits prefix a = a / 2 ^ (32 - prefix)

pub record Ipnet : Type 1 where
  pub Net : Type 0
  -- `PartialEq`: the host bits count
  pub net_eq : Net → Net → Bool
  pub net_eq_iff : (a b : Net) → (net_eq a b ≡ true) ↔ (a ≡ b)
  pub addr : Net → ℕ
  pub prefix_len : Net → ℕ
  -- the address with its host bits cleared
  pub network : Net → ℕ
  pub contains : Net → Net → Bool
  pub parse : String → Option Net
  -- whether a text that is no `Ipv4Net` is an `Ipv6Net`
  pub parses_v6 : String → Bool
  pub to_string : Net → String
  pub prefix_len-le : (n : Net) → prefix_len n ≤ 32
  pub network-lt : (n : Net) → network n < 2 ^ 32
  -- "true if this network and its children contain the given network"
  pub contains-eq :
      (n m : Net)
      → contains n m ≡ (
          leb (prefix_len n) (prefix_len m)
          && top_bits (prefix_len n) (network n) == top_bits (prefix_len n) (network m))
  -- printing and reading back
  pub parse-to_string : (n : Net) → parse (to_string n) ≡ some n

-- The address lies in the network.
abbrev pub has_addr : (ip : Ipnet) → Ipnet.Net ip → ℕ → Bool
has_addr ip n a = top_bits (ip.prefix_len n) (ip.network n) == top_bits (ip.prefix_len n) a
