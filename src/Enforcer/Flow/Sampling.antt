-- ===== src/Enforcer/Flow/Sampling.antt =====
-- The sampling of deny events: `log_allows` charges both budgets or neither, within both caps.
use wire_mesh.Common.{ℕ, ◌≤◌, ◌<◌, true, false, ◌≡◌, ◌≢◌, arith}
use wire_mesh.Enforcer.Flow.{
  RateVal, Config, Budgets, log_rule_cap, log_agg_cap, budget_would_allow, budget_commit,
  log_allows,
}

-- a bucket that has charged no more than its cap
abbrev pub WithinCap : ℕ → RateVal → Type 0
WithinCap cap v = v.count ≤ cap

budget_commit-WithinCap :
    (v : RateVal) (cap now : ℕ)
    → 0 < cap
    → budget_would_allow v cap now ≡ true
    → WithinCap cap v
    → WithinCap cap (budget_commit v now)
unfolding budget_would_allow budget_commit
budget_commit-WithinCap v cap now pos ok h = ground arith

-- A refused event charges neither budget, whichever of the two refused it.
pub log_allows_refused :
    (c : Config) (b : Budgets) (i now : ℕ)
    → (log_allows c b i now).0 ≡ false
    → (log_allows c b i now).1 ≡ b
unfolding log_allows
log_allows_refused c b i now h = ground arith

-- An admitted event charges its rule's bucket and the aggregate one, and no other rule's.
pub log_allows_admitted :
    (c : Config) (b : Budgets) (i now : ℕ)
    → (log_allows c b i now).0 ≡ true
    → ((log_allows c b i now).1.per_rule i ≡ budget_commit (b.per_rule i) now)
      × ((log_allows c b i now).1.aggregate ≡ budget_commit b.aggregate now)
      × ((j : ℕ) → i ≢ j → (log_allows c b i now).1.per_rule j ≡ b.per_rule j)
unfolding log_allows
log_allows_admitted c b i now h = (ground arith, ground arith, λ j ne. ground arith)

pub record IsWithinCaps (c : Config) (b : Budgets) : Type 0 where
  pub per_rule : (i : ℕ) → WithinCap (log_rule_cap c) (b.per_rule i)
  pub aggregate : WithinCap (log_agg_cap c) b.aggregate

-- With positive caps, an event leaves every bucket of both budgets within its cap.
pub log_allows-IsWithinCaps :
    (c : Config) (b : Budgets) (i now : ℕ)
    → 0 < log_rule_cap c
    → 0 < log_agg_cap c
    → IsWithinCaps c b
    → IsWithinCaps c (log_allows c b i now).1
unfolding log_allows
log_allows-IsWithinCaps c b i now pr pa h = record {
  per_rule = λ j. ground (
    arith,
    h.per_rule i,
    h.per_rule j,
    budget_commit-WithinCap (b.per_rule i) (log_rule_cap c) now pr,
  );
  aggregate =
      ground (arith, h.aggregate, budget_commit-WithinCap b.aggregate (log_agg_cap c) now pa);
}
