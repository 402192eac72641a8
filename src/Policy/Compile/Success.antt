-- ===== src/Policy/Compile/Success.antt =====
-- What `compile` makes of a policy that `validate` accepts.
use wire_mesh.Policy.Compile.{
  icmp, udp, tcp, range, single, any, RuleBody, IrProto, PortSpec, range_ends, normalize_port,
  normalize_ports, proto_of,
}
use wire_mesh.Policy.Validate.{
  at_rule, has_ports, both, range_of, valid_proto, check_range, check_port_value, validate_port,
  each_port, validate_ports,
}
use wire_mesh.Common.{
  str_eq, ℕ, ◌%◌, ◌^◌, ◌≤◌, String, ◌≡◌, refl, ap, subst, inl, inr, true, not, ◌&&◌, Option, none,
  some, List, [], ◌∷◌, ◌++◌, arith, leb, ◌==◌, if◌then◌else◌, Bool-cases, is_empty, In, here, there,
}
use wire_mesh.Common.Result.{ok}
use wire_mesh.Policy.Numbers.{codes, trim, split_once, parse_i64, parse_u16-parse_i64}
use wire_mesh.Policy.Dsl.{ports_need_proto, ℤ, pos, negsuc}

pub ++-eq-nil : {A : Type 0} (xs ys : List A) → xs ++ ys ≡ [] → (xs ≡ []) × (ys ≡ [])
++-eq-nil [] ys h = (refl, h)
++-eq-nil (x ∷ xs) ys h = cc

-- a port range of the IR: never the `(0, 0)` that stands for any port
abbrev pub IsRange : ℕ × ℕ → Type 0
IsRange (lo, hi) = (1 ≤ lo) × (lo ≤ hi) × (hi ≤ 65535)

abbrev pub AllIn : {A : Type 0} → (A → Type 0) → List A → Type 0
AllIn P [] = Unit
AllIn P (x ∷ xs) = P x × AllIn P xs

pub AllIn-In : {A : Type 0} (P : A → Type 0) (xs : List A) {a : A} → AllIn P xs → In a xs → P a
AllIn-In P [] h m = elim m [ ]
AllIn-In P (x ∷ xs) (p, ps) (here e) = subst P e p
AllIn-In P (x ∷ xs) (p, ps) (there m) = AllIn-In P xs ps m

check_port_value-eq-nil :
    (b r : ℕ) (n : ℤ)
    → (check_port_value b r n).0 ≡ []
    → (k : ℕ) × (n ≡ pos k) × (1 ≤ k) × (k ≤ 65535) × (check_port_value b r n ≡ ([], true))
unfolding check_port_value
check_port_value-eq-nil b r (pos k) h = elim (Bool-cases (k == 0)) [
  | inl zero' ↦ absurd (ground (arith, rw zero' at h))
  | inr some' ↦ elim (Bool-cases (leb 1 k && leb k 65535)) [
    | inl fits ↦ (k, refl, ground arith, ground arith, rw (some', fits) refl)
    | inr beyond ↦ absurd (ground (arith, rw (some', beyond) at h))
  ]
]
check_port_value-eq-nil b r (negsuc k) h = cc

check_range-eq-nil :
    (b r : ℕ) (s : String) (x y : Option ℤ)
    → check_range b r s (both x y) ≡ []
    → (l h : ℕ) × (x ≡ some (pos l)) × (y ≡ some (pos h)) × IsRange (l, h)
check_range-eq-nil b r s none y h = cc
check_range-eq-nil b r s (some lo) none h = cc
check_range-eq-nil b r s (some lo) (some hi) h =
    let (low_nil, _) = ++-eq-nil (check_port_value b r lo).0 _ h in
    let (l, el, l1, l2, vl) = check_port_value-eq-nil b r lo low_nil in
    let h2 = rw vl at h in
    let (high_nil, _) = ++-eq-nil (check_port_value b r hi).0 _ h2 in
    let (u, eu, u1, u2, vu) = check_port_value-eq-nil b r hi high_nil in
    let h3 = rw (vu, el, eu) at h2 in (l, u, ap some el, ap some eu, (l1, ground (arith, h3), u2))

range_ends-eq :
    (b r : ℕ) (s : String) (o : Option (List ℕ × List ℕ))
    → check_range b r s (range_of o) ≡ []
    → (q : ℕ × ℕ) × (range_ends o ≡ ok q) × IsRange q
range_ends-eq b r s none h = cc
range_ends-eq b r s (some (lo, hi)) h =
    let (l, u, el, eu, fit) =
      check_range-eq-nil b r s (parse_i64 (trim lo)) (parse_i64 (trim hi)) h in
    let pl = parse_u16-parse_i64 (trim lo) (omega (arith, fit)) (omega (arith, fit)) el in
    let pu = parse_u16-parse_i64 (trim hi) (omega (arith, fit)) (omega (arith, fit)) eu in
    ((l, u), rw (pl, pu) refl, fit)

validate_port-eq-nil :
    (b r : ℕ) (p : PortSpec)
    → validate_port b r p ≡ []
    → (q : ℕ × ℕ) × (normalize_port p ≡ ok q) × IsRange q
unfolding validate_port normalize_port
validate_port-eq-nil b r (single n) h =
    let (k, e, k1, k2, _) = check_port_value-eq-nil b r n h in
    let same : k % 2 ^ 16 ≡ k = omega arith in ((k, k), rw (e, same) refl, (k1, omega arith, k2))
validate_port-eq-nil b r (range s) h = range_ends-eq b r s (split_once (codes s)) h

each_port-eq-nil :
    (b r : ℕ) (ps : List PortSpec)
    → each_port b r ps ≡ []
    → (qs : List (ℕ × ℕ)) × (normalize_ports ps ≡ ok qs) × AllIn IsRange qs
unfolding each_port normalize_ports
each_port-eq-nil b r [] h = ([], refl, tt)
each_port-eq-nil b r (p ∷ ps) h =
    let (h1, h2) = ++-eq-nil (validate_port b r p) (each_port b r ps) h in
    let (q, e, fit) = validate_port-eq-nil b r p h1 in
    let (qs, es, fits) = each_port-eq-nil b r ps h2 in (q ∷ qs, rw (e, es) refl, (fit, fits))

valid_proto-proto_of :
    (o : Option String) → valid_proto o ≡ true → (p : IrProto) × (proto_of o ≡ ok p)
unfolding valid_proto proto_of
valid_proto-proto_of none h = (any, refl)
valid_proto-proto_of (some s) h = elim (Bool-cases (str_eq s "tcp")) [
  | inl e ↦ (tcp, rw e refl)
  | inr n ↦ elim (Bool-cases (str_eq s "udp")) [
    | inl e ↦ (udp, rw (n, e) refl)
    | inr m ↦ (icmp, rw (n, m, rw (n, m) at h) refl)
  ]
]

pub validate_ports-eq-nil :
    (b r : ℕ) (body : RuleBody)
    → validate_ports b r body ≡ []
    → (p : IrProto) × (proto_of body.proto ≡ ok p)
      × (qs : List (ℕ × ℕ)) × (normalize_ports body.ports ≡ ok qs)
      × AllIn IsRange qs
unfolding validate_ports normalize_ports
validate_ports-eq-nil b r body h = elim (Bool-cases (valid_proto body.proto)) [
  | inr bad ↦ absurd (ground (arith, rw bad at h))
  | inl good ↦
      let (p, e) = valid_proto-proto_of body.proto good in
      let (qs, es, fits) = ports body.ports (rw good at h) in (p, e, qs, es, fits)
]
  where
    ports :
        (ps : List PortSpec)
        → (if is_empty ps
            then []
            else if not (has_ports body.proto)
            then at_rule b r ports_need_proto ∷ []
            else each_port b r ps)
          ≡ []
        → (qs : List (ℕ × ℕ)) × (normalize_ports ps ≡ ok qs) × AllIn IsRange qs
    ports [] k = ([], refl, tt)
    ports (q ∷ qs) k = each_port-eq-nil b r (q ∷ qs) (ground (arith, k))
