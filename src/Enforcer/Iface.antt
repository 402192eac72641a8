-- ===== src/Enforcer/Iface.antt =====
-- crates/wiremesh-enforcer/src/lib.rs: the names of interfaces that both backends take.
use wire_mesh.Common.{ℕ, String, Bool, true, not, ◌&&◌, ◌||◌, List, [], ◌∷◌, ltb, leb, ◌==◌, all_of}
use wire_mesh.Policy.Numbers.{codes}
use Prim.Native.String.{len}

abbrev pub is_alphanumeric : ℕ → Bool
is_alphanumeric c =
    (leb b'0' c && leb c b'9') || (leb b'A' c && leb c b'Z') || (leb b'a' c && leb c b'z')

abbrev pub charset_ok : ℕ → Bool
charset_ok c = is_alphanumeric c || c == b'_' || c == b'.' || c == b'-'

abbrev pub starts_badly : List ℕ → Bool
starts_badly [] = true
starts_badly (c ∷ cs) = c == b'-' || c == b'.'

-- A character that is not ASCII fails the charset, as its bytes do.
unfoldable pub validate_iface : String → Bool
validate_iface iface =
    not (ltb 15 (len iface) || not (all_of charset_ok (codes iface)) || starts_badly (codes iface))
