-- ===== src/Enforcer/Flow.antt =====
-- crates/wiremesh-enforcer-ebpf/common/src/lib.rs and program/src/main.rs: the flow table, the rate
-- cap on new flows, and the budgets for deny events.
pub mod Sampling
use wire_mesh.Common.{
  ℕ, ◌+◌, ◌-◌, ◌*◌, ◌%◌, ◌^◌, min, Bool, true, false, ◌&&◌, Option, none, some, leb, ltb, ◌==◌,
  if◌then◌else◌, ◌≡◌, ◌↔◌, arith,
}

-- words as a program loads them, in the machine's byte order
pub record FlowKey : Type 0 where
  pub src : ℕ
  pub dst : ℕ
  pub sport : ℕ
  pub dport : ℕ
  pub proto : ℕ

abbrev pub flow_key_eq : FlowKey → FlowKey → Bool
flow_key_eq a b =
    a.src == b.src
    && a.dst == b.dst
    && a.sport == b.sport
    && a.dport == b.dport
    && a.proto == b.proto

pub flow_key_eq_iff : (a b : FlowKey) → (flow_key_eq a b ≡ true) ↔ (a ≡ b)
flow_key_eq_iff a b = ground arith

pub record FlowVal : Type 0 where
  pub last_seen_ns : ℕ

pub record RateVal : Type 0 where
  pub window_start_ns : ℕ
  pub count : ℕ

abbrev pub rate_window_ns : ℕ
rate_window_ns = 1000000000

-- the slots of CONFIG
pub record Config : Type 0 where
  pub tcp_ns : ℕ
  pub udp_ns : ℕ
  pub icmp_ns : ℕ
  pub rate_cap : ℕ
  pub log_per_rule : ℕ
  pub log_aggregate : ℕ

-- 0 in a slot means that it was not written
unfoldable pub cfg_or_default : ℕ → ℕ → ℕ
cfg_or_default v default = if v == 0 then default else v

-- the constants DEFAULT_*
unfoldable pub timeout_ns : Config → ℕ → ℕ
unfolding cfg_or_default
timeout_ns c proto =
    if proto == 6
    then cfg_or_default c.tcp_ns (7200 * 1000000000)
    else if proto == 1
    then cfg_or_default c.icmp_ns (30 * 1000000000)
    else cfg_or_default c.udp_ns (60 * 1000000000)

-- `as u32`
abbrev pub as_u32 : ℕ → ℕ
as_u32 n = n % 2 ^ 32

unfoldable pub rate_cap : Config → ℕ
unfolding cfg_or_default
rate_cap c = as_u32 (cfg_or_default c.rate_cap 256)

-- `count.saturating_add(1)` on a u32
abbrev pub saturating_suc : ℕ → ℕ
saturating_suc n = min (n + 1) 4294967295

-- What `rate_allows` does with a source's cell: the answer, and the cell after it.
unfoldable pub rate_step : ℕ → Option RateVal → ℕ → Bool × RateVal
rate_step cap none now = (true, record { window_start_ns = now; count = 1 })
rate_step cap (some v) now =
    if ltb rate_window_ns (now - v.window_start_ns)
    then (true, record { window_start_ns = now; count = 1 })
    else if ltb v.count cap
    then (true, record v { count = saturating_suc v.count })
    else (false, v)

unfoldable pub budget_would_allow : RateVal → ℕ → ℕ → Bool
budget_would_allow v cap now =
    if ltb rate_window_ns (now - v.window_start_ns) then true else ltb v.count cap

unfoldable pub budget_commit : RateVal → ℕ → RateVal
budget_commit v now =
    if ltb rate_window_ns (now - v.window_start_ns)
    then record { window_start_ns = now; count = 1 }
    else record v { count = saturating_suc v.count }

-- the two budgets of deny events: one for each rule index up to 256, and one for all
pub record Budgets : Type 0 where
  pub per_rule : ℕ → RateVal
  pub aggregate : RateVal

abbrev pub log_rule_cap : Config → ℕ
log_rule_cap c = as_u32 (cfg_or_default c.log_per_rule 10)

abbrev pub log_agg_cap : Config → ℕ
log_agg_cap c = as_u32 (cfg_or_default c.log_aggregate 100)

-- LOG_RULE_BUDGET has 257 slots
abbrev pub rule_slot : ℕ → Bool
rule_slot i = leb i 256

unfoldable pub log_allows : Config → Budgets → ℕ → ℕ → Bool × Budgets
unfolding budget_would_allow budget_commit
log_allows c b rule_idx now =
    if rule_slot rule_idx && budget_would_allow (b.per_rule rule_idx) (log_rule_cap c) now
    then (if budget_would_allow b.aggregate (log_agg_cap c) now
        then (
          true,
          record {
            per_rule = λ j.
                if rule_idx == j then budget_commit (b.per_rule rule_idx) now else b.per_rule j;
            aggregate = budget_commit b.aggregate now;
          },
        )
        else (false, b))
    else (false, b)
