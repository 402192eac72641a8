-- ===== src/Lib.antt =====
-- wireMesh connects sites by WireGuard tunnels. A controller compiles a policy and hands it to the
-- gateways; each gateway keeps a path to every peer and enforces the policy on its segment.
--
-- The policy. crates/wiremesh-policy/src/dsl.rs and lib.rs (Policy/Dsl) hold the parsed policy and
-- the errors; validate.rs (Policy/Validate, Policy/Numbers) collects every error in source order;
-- compile.rs (Policy/Compile, Policy/RuleId, Policy/Limits) lowers a valid policy to the IR, names
-- each rule by a hash and counts the two limits; lib.rs (Policy/Parse) reads and validates. An
-- error's text is a constructor, a vector that is pushed to is returned, and `expect` and
-- `unreachable!` are an outcome of their own. Admission and Installation follow a compiled policy
-- through the enforcer to the kernel's maps.
--
-- The enforcer. crates/wiremesh-policy/src/ir.rs (Policy/Ir) holds the compiled policy;
-- crates/wiremesh-enforcer/src/flatten.rs (Enforcer/Flatten) explodes it into at most 256 flat
-- rules; crates/wiremesh-enforcer/src/ebpf.rs (Enforcer/Tables) builds the two tries and the rule
-- array of a generation from them, and installs it by the writes of Enforcer/Maps, folding the
-- counters and flipping the active slot (Enforcer/Generation);
-- crates/wiremesh-enforcer-ebpf/common/src/lib.rs (Enforcer/RuleBits, Enforcer/Flow) holds the
-- types that both sides share; crates/wiremesh-enforcer-ebpf/program/src/main.rs is the program in
-- the kernel: the scan of a generation (Enforcer/Scan), its flows and rate caps (Enforcer/Flow),
-- what it reads of a packet (Enforcer/Packet), and the two classifiers over all its maps
-- (Enforcer/Classifier). Functions keep their names; a loop is a function of its own, named for
-- what it does. Enforcer/Verdict is the reference: the first flat rule that matches a packet.
--
-- The gateway. crates/wiremesh-gateway/src/path.rs (Gateway/Path) is the state of the path to a
-- peer; punch_backoff.rs and relay_connect_backoff.rs beside it (Gateway/Backoff) space out the
-- attempts that fail; rotation.rs (Gateway/Rotation, Gateway/Overlap) is the rotation of the
-- gateway's own key and the guard on writing back to an overlap, and, in Gateway/RoleB, what is
-- done about the peers that rotate theirs. epochkeys.rs (Gateway/EpochKeys) is the store of its
-- keys, uapi.rs (Gateway/Base64) their base64, tunnelset.rs (Gateway/Tunnels, Gateway/TunnelSet)
-- the plans of tunnels and the set of those that are up, with the quarantine of those torn down,
-- and state.rs (Gateway/Desired) the state that the controller asks for and the deltas that change
-- it, and reconcile.rs (Gateway/Reconcile) the configuration of a device and the routes to change.
-- Whether a call on a device succeeds is an argument. crates/wiremesh-enforcer/src/lib.rs
-- (Enforcer/Iface) checks a tunnel's name.
--
-- The controller. crates/wiremesh-controller/src/broker.rs (Controller/Broker, Controller/Streams)
-- keeps what the gateways report of their paths and tells pairs to punch; what the database, the
-- clock and the channels answer is a record, and the mutexes are never poisoned. The controller
-- drives the rotations by crates/wiremesh-controller/src/rotation.rs (Controller/Rotation).
-- Instants and durations are nanoseconds; a method that mutates returns its answer and the new
-- state.
--
-- External code is a parameter with documented laws: the ipnet crate (External/Ipnet), the
-- kernel's LPM trie (External/LpmTrie) and its LRU hash, which may evict or refuse
-- (External/LruMap). SHA-256 and x25519 are arbitrary functions. Tests/Concrete gives an instance
-- of each. A failed system call is `none`, an error a constructor.
--
-- Bounds: counters wrap at 2^64 and u32 counts saturate, as in the code. The machine is
-- little-endian. The scan of a generation runs for 256 rounds, and a planned name and port are
-- searched for in 64 slots and 63 ports, the code's bounds. A printed number has five digits or
-- ten, as many as its 16 or 32 bits need.
--
-- Not modelled: sockets, gRPC services, the database, the nftables backend, the operator and the
-- command line, which are I/O around these parts. Concurrent packets on several processors are one
-- sequence of packets.
mod Common
pub mod External
pub mod Policy
pub mod Enforcer
pub mod Gateway
pub mod Controller
mod Tests
