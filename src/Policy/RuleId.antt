-- ===== src/Policy/RuleId.antt =====
-- crates/wiremesh-policy/src/compile.rs and ir.rs: the content hash that names a rule. SHA-256 of a
-- text's UTF-8, as bytes, is an argument.
use wire_mesh.Common.{ℕ, zero, suc, ◌/◌, ◌%◌, String, List, [], ◌∷◌, map, ltb, if◌then◌else◌}
use wire_mesh.Policy.Ir.{IrRule, IrAction, allow, deny, IrProto, tcp, udp, icmp, any}
use Prim.Native.String.{◌++◌ as push_str}

-- texts
infixr 65 ◌⧺◌
abbrev ◌⧺◌ : String → String → String
s ⧺ t = push_str s t

unfoldable pub join : List String → String
join [] = ""
join (s ∷ []) = s
join (s ∷ t ∷ ts) = s ⧺ "," ⧺ join (t ∷ ts)

abbrev pub one_digit : List String → ℕ → String
one_digit [] d = ""
one_digit (s ∷ ss) zero = s
one_digit (s ∷ ss) (suc d) = one_digit ss d

abbrev digit_texts : List String
digit_texts =
    "0" ∷ "1" ∷ "2" ∷ "3" ∷ "4" ∷ "5" ∷ "6" ∷ "7" ∷ "8" ∷ "9" ∷ "a" ∷ "b" ∷ "c" ∷ "d" ∷ "e" ∷ "f"
    ∷ []

-- `Display` of a number below 10 ^ fuel
unfoldable pub decimal : ℕ → ℕ → String
decimal zero n = ""
decimal (suc fuel) n =
    let rest = decimal fuel (n / 10) in
    if ltb n 10 then one_digit digit_texts n else rest ⧺ one_digit digit_texts (n % 10)

unfoldable pub hex_encode : List ℕ → String
hex_encode [] = ""
hex_encode (b ∷ bs) =
    one_digit digit_texts (b / 16) ⧺ one_digit digit_texts (b % 16) ⧺ hex_encode bs

abbrev pub first_bytes : ℕ → List ℕ → List ℕ
first_bytes zero bs = []
first_bytes (suc n) [] = []
first_bytes (suc n) (b ∷ bs) = b ∷ first_bytes n bs

unfoldable pub port_text : ℕ × ℕ → String
unfolding decimal
port_text (lo, hi) = decimal 5 lo ⧺ "-" ⧺ decimal 5 hi

abbrev pub action_text : IrAction → String
action_text allow = "allow"
action_text deny = "deny"

abbrev pub proto_text : IrProto → String
proto_text tcp = "tcp"
proto_text udp = "udp"
proto_text icmp = "icmp"
proto_text any = "any"

unfoldable pub preimage : String → String → IrRule → String
unfolding join port_text
preimage from to rule =
    from
    ⧺ "|"
    ⧺ to
    ⧺ "|"
    ⧺ action_text rule.action
    ⧺ "|"
    ⧺ proto_text rule.proto
    ⧺ "|src="
    ⧺ join rule.src
    ⧺ "|dst="
    ⧺ join rule.dst
    ⧺ "|ports="
    ⧺ join (map port_text rule.ports)

unfoldable pub rule_id : (String → List ℕ) → String → String → IrRule → String
unfolding hex_encode preimage
rule_id sha256 from to rule = hex_encode (first_bytes 8 (sha256 (preimage from to rule)))
