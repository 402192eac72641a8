-- ===== src/Enforcer/Packet.antt =====
-- crates/wiremesh-enforcer-ebpf/program/src/main.rs: what the classifiers read of a packet, a list of
-- bytes. A load of several bytes gives a word in the machine's (little-endian) order.
use wire_mesh.Common.{
  ℕ, ◌+◌, ◌*◌, ◌/◌, ◌||◌, Option, none, some, List, get_elem?, bit_and, ◌==◌, not, if◌then◌else◌,
}
use wire_mesh.Enforcer.Flow.{FlowKey}

infixl 5 ◌>>=◌
abbrev ◌>>=◌ : {A B : Type 0} → Option A → (A → Option B) → Option B
none >>= f = none
some a >>= f = f a

unfoldable pub load8 : List ℕ → ℕ → Option ℕ
load8 bytes off = get_elem? bytes off

unfoldable pub load16 : List ℕ → ℕ → Option ℕ
unfolding load8
load16 bytes off = do a ← load8 bytes off; b ← load8 bytes (off + 1); some (a + 256 * b)

unfoldable pub load32 : List ℕ → ℕ → Option ℕ
unfolding load16
load32 bytes off = do a ← load16 bytes off; b ← load16 bytes (off + 2); some (a + 65536 * b)

abbrev pub unwrap_or_zero : Option ℕ → ℕ
unwrap_or_zero none = 0
unwrap_or_zero (some n) = n

pub record Ipv4 : Type 0 where
  pub src : ℕ
  pub dst : ℕ
  pub proto : ℕ
  pub ihl : ℕ

unfoldable pub ipv4_at : List ℕ → Option Ipv4
unfolding load8 load32
ipv4_at bytes = do
  vihl ← load8 bytes 0
  if not (vihl / 16 == 4) then none else do
    proto ← load8 bytes 9
    src ← load32 bytes 12
    dst ← load32 bytes 16
    some (record { src = src; dst = dst; proto = proto; ihl = bit_and vihl 0x0f * 4 })

unfoldable pub ports_at : List ℕ → ℕ → ℕ → ℕ × ℕ
unfolding load16
ports_at bytes off proto =
    if proto == 6 || proto == 17
    then (unwrap_or_zero (load16 bytes off), unwrap_or_zero (load16 bytes (off + 2)))
    else if proto == 1
    then (unwrap_or_zero (load16 bytes (off + 4)), 0)
    else (0, 0)

-- the embedded IPv4 packet of an ICMP error, whose header begins at `eoff`
embedded_at : List ℕ → ℕ → ℕ → Option (Option FlowKey)
unfolding load8 load16 load32
embedded_at bytes eoff evihl = do
  let eihl = bit_and evihl 0x0f * 4
  eproto ← load8 bytes (eoff + 9)
  esrc ← load32 bytes (eoff + 12)
  edst ← load32 bytes (eoff + 16)
  let esport = unwrap_or_zero (load16 bytes (eoff + eihl))
  let edport = unwrap_or_zero (load16 bytes (eoff + eihl + 2))
  some (some (record { src = esrc; dst = edst; sport = esport; dport = edport; proto = eproto }))

-- The flow that an ICMP error is about: `none` where a load fails, `some none` where the message is
-- no error, or none about an IPv4 packet.
unfoldable pub embedded_key : List ℕ → ℕ → Option (Option FlowKey)
unfolding load8 embedded_at
embedded_key bytes ihl = do
  itype ← load8 bytes ihl
  if not (itype == 3 || itype == 11 || itype == 12) then some none else do
    evihl ← load8 bytes (ihl + 8)
    if evihl / 16 == 4 then embedded_at bytes (ihl + 8) evihl else some none

-- the flow that the packet belongs to, as its sender's gateway records it
unfoldable pub forward_key : List ℕ → Ipv4 → FlowKey
unfolding ports_at
forward_key bytes h =
    let (sport, dport) = ports_at bytes h.ihl h.proto in
    record { src = h.src; dst = h.dst; sport = sport; dport = dport; proto = h.proto }

-- the flow that the packet replies to; an ICMP identifier does not change sides
unfoldable pub reverse_key : List ℕ → Ipv4 → FlowKey
unfolding ports_at
reverse_key bytes h =
    let (sport, dport) = ports_at bytes h.ihl h.proto in
    if h.proto == 1
    then record { src = h.dst; dst = h.src; sport = sport; dport = dport; proto = h.proto }
    else record { src = h.dst; dst = h.src; sport = dport; dport = sport; proto = h.proto }
