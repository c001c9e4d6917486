-- ===== src/Usage.antt =====
-- The token-usage panel (usage.go). The rows are those of getUsageByClient in db.go. The map byName and the
-- slice order are one list of clients, in the order of their first row. A bar class is the number
-- that follows "ub-".
pub mod Totals
pub mod Bars
pub mod Sums
use gateway.Prelude.{
  ℕ, ◌+◌, ◌-◌, ◌*◌, ◌/◌, ◌%◌, String, str_eq, Bool, true, false, ◌||◌, Option, none, some, List, [],
  ◌∷◌, ◌++◌, map, ◌==◌, ltb, leb, if◌then◌else◌, length,
}

-- `user` is the status of the users row that the LEFT JOIN found.
pub record UsageRow : Type 0 where
  pub user_name : String
  pub user : Option String
  pub model : String
  pub requests : ℕ
  pub in_tokens : ℕ
  pub out_tokens : ℕ
  pub streamed : ℕ
  pub unreported : ℕ

pub record UsageByModel : Type 0 where
  pub model : String
  pub requests : ℕ
  pub in_tokens : ℕ
  pub out_tokens : ℕ
  pub streamed : ℕ
  pub unreported : ℕ

pub record ClientUsage : Type 0 where
  pub name : String
  pub registered : Bool
  pub status : String
  pub requests : ℕ
  pub in_tokens : ℕ
  pub out_tokens : ℕ
  pub streamed : ℕ
  pub unreported : ℕ
  pub models : List UsageByModel
  pub bar : ℕ

-- ClientUsage.Total
unfoldable pub total : ClientUsage → ℕ
total c = c.in_tokens + c.out_tokens

pub record UsageTotals : Type 0 where
  pub clients : ℕ
  pub requests : ℕ
  pub in_tokens : ℕ
  pub out_tokens : ℕ
  pub unreported : ℕ

pub record UsagePanel : Type 0 where
  pub window : String
  pub window_label : String
  pub clients : List ClientUsage
  pub totals : UsageTotals
  pub known_clients : ℕ

-- usageWindowFor
unfoldable pub usage_window_for : String → String
usage_window_for key =
    if str_eq key "24h" || (str_eq key "7d" || str_eq key "30d") then key else "7d"

-- The label of usageWindows, "" on a missing key.
unfoldable pub window_label_of : String → String
window_label_of key =
    if str_eq key "24h"
    then "24 hours"
    else if str_eq key "7d"
    then "7 days"
    else if str_eq key "30d"
    then "30 days"
    else ""

-- usageBarClass
unfoldable pub capped : ℕ → ℕ
capped pct = if ltb 100 pct then 100 else pct

unfoldable pub floored : ℕ → ℕ
floored pct = if ltb pct 10 then 10 else pct

unfoldable pub usage_bar_class : ℕ → ℕ → ℕ
unfolding capped floored
usage_bar_class tokens max =
    if leb tokens 0 || leb max 0
    then 0
    else capped (floored (tokens * 100 / max) - floored (tokens * 100 / max) % 10)

unfoldable pub by_model : UsageRow → UsageByModel
by_model r = record {
  model = r.model;
  requests = r.requests;
  in_tokens = r.in_tokens;
  out_tokens = r.out_tokens;
  streamed = r.streamed;
  unreported = r.unreported;
}

unfoldable pub new_client : UsageRow → ClientUsage
new_client r = record {
  name = r.user_name;
  registered = elim r.user [ none ↦ false | some s ↦ true ];
  status = elim r.user [ none ↦ "" | some s ↦ s ];
  requests = 0;
  in_tokens = 0;
  out_tokens = 0;
  streamed = 0;
  unreported = 0;
  models = [];
  bar = 0;
}

unfoldable pub add_usage : UsageRow → ClientUsage → ClientUsage
unfolding by_model
add_usage r c = record c {
  requests = c.requests + r.requests;
  in_tokens = c.in_tokens + r.in_tokens;
  out_tokens = c.out_tokens + r.out_tokens;
  streamed = c.streamed + r.streamed;
  unreported = c.unreported + r.unreported;
  models = c.models ++ by_model r ∷ [];
}

unfoldable pub add_row : UsageRow → List ClientUsage → List ClientUsage
add_row r [] = add_usage r (new_client r) ∷ []
add_row r (c ∷ cs) =
    let rest = add_row r cs in if str_eq c.name r.user_name then add_usage r c ∷ cs else c ∷ rest

unfoldable pub add_rows : List UsageRow → List ClientUsage → List ClientUsage
unfolding add_row
add_rows [] cs = cs
add_rows (r ∷ rs) cs = add_rows rs (add_row r cs)

unfoldable pub add_totals : List UsageRow → UsageTotals → UsageTotals
add_totals [] t = t
add_totals (r ∷ rs) t = add_totals rs (record t {
  requests = t.requests + r.requests;
  in_tokens = t.in_tokens + r.in_tokens;
  out_tokens = t.out_tokens + r.out_tokens;
  unreported = t.unreported + r.unreported;
})

unfoldable pub largest : List ClientUsage → ℕ → ℕ
largest [] m = m
largest (c ∷ cs) m = largest cs (if ltb m (total c) then total c else m)

unfoldable pub with_bar : ℕ → ClientUsage → ClientUsage
unfolding usage_bar_class
with_bar m c = record c { bar = usage_bar_class (total c) m }

abbrev pub no_totals : UsageTotals
no_totals = record { clients = 0; requests = 0; in_tokens = 0; out_tokens = 0; unreported = 0 }

unfoldable pub build_usage_panel : List UsageRow → String → ℕ → UsagePanel
unfolding add_rows add_totals largest with_bar
build_usage_panel rows window known_clients = record {
  window = window;
  window_label = window_label_of window;
  clients = map (with_bar (largest (add_rows rows []) 0)) (add_rows rows []);
  totals = record (add_totals rows no_totals) { clients = length (add_rows rows []) };
  known_clients = known_clients;
}
