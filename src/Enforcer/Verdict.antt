-- ===== src/Enforcer/Verdict.antt =====
-- What the policy means for a packet: the first flat rule that matches it, with no trie and no
-- bitset. The children prove that the tables of a generation give the same verdict.
pub mod Covering
pub mod Lookup
pub mod Scanning
pub mod Generation
use wire_mesh.Common.{
  ℕ, Bool, true, false, ◌&&◌, ◌||◌, Option, none, some, List, [], ◌∷◌, leb, ◌==◌, if◌then◌else◌,
  any_of,
}
use wire_mesh.External.Ipnet.{Ipnet, has_addr}
use wire_mesh.Policy.Ir.{IrProto, tcp, udp, icmp, any}
use wire_mesh.Enforcer.Flatten.{FlatRule}

-- `any` stands for tcp, udp and icmp, and for no other protocol
unfoldable pub proto_covers : IrProto → ℕ → Bool
proto_covers tcp p = p == 6
proto_covers udp p = p == 17
proto_covers icmp p = p == 1
proto_covers any p = p == 1 || p == 6 || p == 17

unfoldable pub port_covers : ℕ → ℕ → ℕ → Bool
port_covers lo hi p = hi == 0 || (leb lo p && leb p hi)

module _ (ip : Ipnet) where
  open ip use {Net}

  -- some CIDR of the list holds the address
  abbrev pub holds : List Net → ℕ → Bool
  holds cidrs a = any_of (λ c. has_addr ip c a) cidrs

  -- addresses and the port as numbers, the first byte on the wire the highest
  unfoldable pub covers : FlatRule Net → ℕ → ℕ → ℕ → ℕ → Bool
  unfolding proto_covers port_covers
  covers f src dst proto dport =
      holds f.src_cidrs src
      && holds f.dst_cidrs dst
      && proto_covers f.proto proto
      && port_covers f.port_lo f.port_hi dport

  unfoldable pub first_match : List (FlatRule Net) → ℕ → ℕ → ℕ → ℕ → Option (FlatRule Net)
  unfolding covers
  first_match [] src dst proto dport = none
  first_match (f ∷ fs) src dst proto dport =
      if covers f src dst proto dport then some f else first_match fs src dst proto dport
