-- ===== src/Gateway/TunnelSet.antt =====
-- crates/wiremesh-gateway/src/tunnelset.rs: the tunnels that are up, and the names and ports that are
-- kept back after a tunnel was torn down. A tunnel is its plan; whether the calls on the device
-- succeed is an argument. Instants are nanoseconds.
pub mod Disjoint
pub mod Runs
pub mod Room
pub mod Planning
use wire_mesh.Common.{
  sum_of-append, str_eq, ℕ, zero, suc, ◌+◌, ◌-◌, ◌*◌, ◌/◌, ◌%◌, ◌^◌, ◌≤◌, ◌<◌, min, max, String,
  ◌≡◌, refl, sym, ap, ◌∙◌, subst, ◌≢◌, ◌↔◌, ◌⊎◌, inl, inr, Bool, true, false, not, ◌&&◌, ◌||◌,
  Option, none, some, List, [], ◌∷◌, ◌++◌, map, arith, ltb, leb, ◌==◌, if◌then◌else◌, is_some,
  leb→le, ==_iff, Bool-cases, Option-cases, length, is_empty, get_elem?, any_of, all_of, sum_of, In,
  here, there,
}
use wire_mesh.Common.Result.{Result, ok, err, guard, ◌>>=◌, ◌>>◌}
use wire_mesh.Gateway.Tunnels.{TunnelId, TunnelPlan, own, overlap, id_eq, holds_name, holds_port}
use Prim.Native.String.{compare, then as tie_break}
use Prim.Native.Nat.{Ordering, compare as compare_ℕ}

abbrev pub quarantine_ns : ℕ
quarantine_ns = 5000000000

abbrev pub max_quarantine : ℕ
max_quarantine = 32

pub record TunnelSet : Type 0 where
  pub tunnels : List TunnelPlan
  pub quarantine : List (TunnelPlan × ℕ)

pub data SetError : Type 0 where
  already_up collides device_failed not_up port_held : SetError

abbrev pub new_set : TunnelSet
new_set = record { tunnels = []; quarantine = [] }

unfoldable pub holds_id : TunnelId → TunnelPlan → Bool
holds_id id p = id_eq p.id id

unfoldable pub keep_plans : (TunnelPlan → Bool) → List TunnelPlan → List TunnelPlan
keep_plans p [] = []
keep_plans p (x ∷ xs) = let rest = keep_plans p xs in if p x then x ∷ rest else rest

-- `retain`
unfoldable pub keep_quarantined :
    (TunnelPlan × ℕ → Bool) → List (TunnelPlan × ℕ) → List (TunnelPlan × ℕ)
keep_quarantined p [] = []
keep_quarantined p (x ∷ xs) = let rest = keep_quarantined p xs in if p x then x ∷ rest else rest

-- a name or a port that the other has
unfoldable pub collide : TunnelPlan → TunnelPlan → Bool
unfolding holds_name holds_port
collide p other = holds_name p.ifname other || holds_port p.listen_port other

unfoldable pub bring_up : TunnelPlan → Bool → Bool → TunnelSet → Result SetError TunnelSet
unfolding holds_id collide keep_quarantined
bring_up p up_ok apply_ok s = do
  guard (not (any_of (holds_id p.id) s.tunnels)) already_up
  guard (not (any_of (collide p) s.tunnels)) collides
  guard up_ok device_failed
  guard apply_ok device_failed
  ok (record {
    tunnels = p ∷ s.tunnels;
    quarantine = keep_quarantined (λ x. not (holds_id p.id x.0 || collide p x.0)) s.quarantine;
  })

unfoldable pub is_fresh : ℕ → TunnelPlan × ℕ → Bool
is_fresh now x = ltb (now - x.1) quarantine_ns

abbrev pub drop_oldest : ℕ → List (TunnelPlan × ℕ) → List (TunnelPlan × ℕ)
drop_oldest zero xs = xs
drop_oldest (suc n) [] = []
drop_oldest (suc n) (x ∷ xs) = drop_oldest n xs

unfoldable pub prune_quarantine : ℕ → List (TunnelPlan × ℕ) → List (TunnelPlan × ℕ)
unfolding is_fresh keep_quarantined
prune_quarantine now xs =
    let fresh = keep_quarantined (is_fresh now) xs in
    drop_oldest (length fresh - max_quarantine) fresh

unfoldable pub get : TunnelId → List TunnelPlan → Option TunnelPlan
unfolding holds_id
get id [] = none
get id (x ∷ xs) = let rest = get id xs in if holds_id id x then some x else rest

abbrev pub torn_down : ℕ → TunnelId → TunnelSet → Option TunnelPlan → TunnelSet
torn_down now id s none = s
torn_down now id s (some p) = record {
  tunnels = keep_plans (λ x. not (holds_id id x)) s.tunnels;
  quarantine = prune_quarantine now (s.quarantine ++ (p, now) ∷ []);
}

unfoldable pub tear_down : ℕ → TunnelId → TunnelSet → TunnelSet
unfolding get keep_plans holds_id prune_quarantine
tear_down now id s = torn_down now id s (get id s.tunnels)

unfoldable pub move_port : TunnelId → ℕ → List TunnelPlan → List TunnelPlan
unfolding holds_id
move_port id port [] = []
move_port id port (x ∷ xs) =
    (if holds_id id x then record x { listen_port = port } else x) ∷ move_port id port xs

unfoldable pub moved : TunnelId → ℕ → Bool → TunnelSet → TunnelPlan → Result SetError TunnelSet
unfolding holds_id holds_port move_port keep_quarantined
moved id port device_ok s t = if t.listen_port == port then ok s else (do
  guard (not (any_of (λ x. not (holds_id id x) && holds_port port x) s.tunnels)) port_held
  guard device_ok device_failed
  ok (record {
    tunnels = move_port id port s.tunnels;
    quarantine = keep_quarantined (λ x. not (holds_port port x.0)) s.quarantine;
  }))

abbrev pub moved_or :
    TunnelId → ℕ → Bool → TunnelSet → Option TunnelPlan → Result SetError TunnelSet
moved_or id port device_ok s none = err not_up
moved_or id port device_ok s (some t) = moved id port device_ok s t

unfoldable pub set_listen_port : TunnelId → ℕ → Bool → TunnelSet → Result SetError TunnelSet
unfolding get moved
set_listen_port id port device_ok s = moved_or id port device_ok s (get id s.tunnels)

-- the order of the reports: `Own` first, then by epoch or peer, name and port
abbrev pub id_compare : TunnelId → TunnelId → Ordering
id_compare (own e) (own f) = compare_ℕ e f
id_compare (own e) (overlap g f) = Ordering.lt
id_compare (overlap g e) (own f) = Ordering.gt
id_compare (overlap g e) (overlap h f) = tie_break (compare_ℕ g h) (compare_ℕ e f)

abbrev pub is_not_above : Ordering → Bool
is_not_above Ordering.lt = true
is_not_above Ordering.eq = true
is_not_above Ordering.gt = false

unfoldable pub plan_le : TunnelPlan → TunnelPlan → Bool
plan_le a b = is_not_above (
    tie_break (id_compare a.id b.id)
      (tie_break (compare a.ifname b.ifname) (compare_ℕ a.listen_port b.listen_port)))

unfoldable pub insert_plan : TunnelPlan → List TunnelPlan → List TunnelPlan
unfolding plan_le
insert_plan p [] = p ∷ []
insert_plan p (x ∷ xs) = let rest = insert_plan p xs in if plan_le p x then p ∷ x ∷ xs else x ∷ rest

unfoldable pub sort_plans : List TunnelPlan → List TunnelPlan
unfolding insert_plan
sort_plans [] = []
sort_plans (p ∷ ps) = insert_plan p (sort_plans ps)

abbrev pub quarantined : List (TunnelPlan × ℕ) → List TunnelPlan
quarantined xs = map (λ (x : TunnelPlan × ℕ). x.0) xs

unfoldable pub plans : ℕ → TunnelSet → List TunnelPlan
unfolding sort_plans keep_quarantined is_fresh
plans now s = sort_plans (s.tunnels ++ quarantined (keep_quarantined (is_fresh now) s.quarantine))
