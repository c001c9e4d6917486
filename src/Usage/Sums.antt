-- ===== src/Usage/Sums.antt =====
-- The panel's sums (usage.go: buildUsagePanel).
use gateway.Prelude.{
  ℕ, ◌+◌, ◌≡◌, refl, sym, String, str_eq, Bool-cases, inl, inr, List, [], ◌∷◌, ◌++◌, map, length,
  All, arith,
}
use gateway.Usage.{
  UsageRow, ClientUsage, UsageTotals, UsagePanel, by_model, new_client, add_usage, add_row,
  add_rows, add_totals, largest, with_bar, no_totals, build_usage_panel,
}

module _ {A : Type 0} where
  -- The sum of a figure over a list.
  unfoldable pub sum_of : (A → ℕ) → List A → ℕ
  sum_of f [] = 0
  sum_of f (x ∷ xs) = f x + sum_of f xs

  sum_of-append : (f : A → ℕ) (xs ys : List A) → sum_of f (xs ++ ys) ≡ sum_of f xs + sum_of f ys
  unfolding sum_of
  sum_of-append f [] ys = omega arith
  sum_of-append f (x ∷ xs) ys = omega (arith, sum_of-append f xs ys)

-- A client's figures are the sums over its models.
pub record IsSummed (c : ClientUsage) : Type 0 where
  pub requests_summed : c.requests ≡ sum_of (λ m. m.requests) c.models
  pub in_tokens_summed : c.in_tokens ≡ sum_of (λ m. m.in_tokens) c.models
  pub out_tokens_summed : c.out_tokens ≡ sum_of (λ m. m.out_tokens) c.models
  pub streamed_summed : c.streamed ≡ sum_of (λ m. m.streamed) c.models
  pub unreported_summed : c.unreported ≡ sum_of (λ m. m.unreported) c.models

add_usage-IsSummed : (r : UsageRow) (c : ClientUsage) → IsSummed c → IsSummed (add_usage r c)
unfolding add_usage by_model sum_of
add_usage-IsSummed r c s = record {
  requests_summed =
      omega (arith, s.requests_summed, sum_of-append (λ m. m.requests) c.models (by_model r ∷ []));
  in_tokens_summed =
      omega
        (arith, s.in_tokens_summed, sum_of-append (λ m. m.in_tokens) c.models (by_model r ∷ []));
  out_tokens_summed =
      omega
        (arith, s.out_tokens_summed, sum_of-append (λ m. m.out_tokens) c.models (by_model r ∷ []));
  streamed_summed =
      omega (arith, s.streamed_summed, sum_of-append (λ m. m.streamed) c.models (by_model r ∷ []));
  unreported_summed =
      omega
        (arith, s.unreported_summed, sum_of-append (λ m. m.unreported) c.models (by_model r ∷ []));
}

new_client-IsSummed : (r : UsageRow) → IsSummed (new_client r)
unfolding new_client sum_of
new_client-IsSummed r = record {
  requests_summed = refl;
  in_tokens_summed = refl;
  out_tokens_summed = refl;
  streamed_summed = refl;
  unreported_summed = refl;
}

add_row-IsSummed :
    (r : UsageRow) (cs : List ClientUsage) → All IsSummed cs → All IsSummed (add_row r cs)
unfolding add_row
add_row-IsSummed r [] s = (add_usage-IsSummed r (new_client r) (new_client-IsSummed r), tt)
add_row-IsSummed r (c ∷ cs) s = elim (Bool-cases (str_eq c.name r.user_name)) [
  | inl t ↦ simp t (add_usage-IsSummed r c s.0, s.1)
  | inr t ↦ simp t (s.0, add_row-IsSummed r cs s.1)
]

add_rows-IsSummed :
    (rs : List UsageRow) (cs : List ClientUsage) → All IsSummed cs → All IsSummed (add_rows rs cs)
unfolding add_rows
add_rows-IsSummed [] cs s = s
add_rows-IsSummed (r ∷ rs) cs s = add_rows-IsSummed rs (add_row r cs) (add_row-IsSummed r cs s)

with_bar-IsSummed :
    (m : ℕ) (cs : List ClientUsage) → All IsSummed cs → All IsSummed (map (with_bar m) cs)
unfolding with_bar
with_bar-IsSummed m [] s = tt
with_bar-IsSummed m (c ∷ cs) s = (
  record {
    requests_summed = s.0.requests_summed;
    in_tokens_summed = s.0.in_tokens_summed;
    out_tokens_summed = s.0.out_tokens_summed;
    streamed_summed = s.0.streamed_summed;
    unreported_summed = s.0.unreported_summed;
  },
  with_bar-IsSummed m cs s.1,
)

-- A figure that a row adds to its client and that a bar leaves alone.
record IsFigure (f : ClientUsage → ℕ) (g : UsageRow → ℕ) : Type 0 where
  added : (r : UsageRow) (c : ClientUsage) → f (add_usage r c) ≡ f c + g r
  starts : (r : UsageRow) → f (new_client r) ≡ 0
  barred : (m : ℕ) (c : ClientUsage) → f (with_bar m c) ≡ f c

module _ (f : ClientUsage → ℕ) (g : UsageRow → ℕ) (h : IsFigure f g) where
  sum-add_row : (r : UsageRow) (cs : List ClientUsage) → sum_of f (add_row r cs) ≡ sum_of f cs + g r
  unfolding sum_of add_row
  sum-add_row r [] = omega (arith, h.added r (new_client r), h.starts r)
  sum-add_row r (c ∷ cs) = elim (Bool-cases (str_eq c.name r.user_name)) [
    | inl t ↦ simp t (omega (arith, h.added r c))
    | inr t ↦ simp t (omega (arith, sum-add_row r cs))
  ]

  sum-add_rows :
      (rs : List UsageRow) (cs : List ClientUsage)
      → sum_of f (add_rows rs cs) ≡ sum_of f cs + sum_of g rs
  unfolding sum_of add_rows
  sum-add_rows [] cs = omega arith
  sum-add_rows (r ∷ rs) cs = omega (arith, sum-add_rows rs (add_row r cs), sum-add_row r cs)

  sum-with_bar : (m : ℕ) (cs : List ClientUsage) → sum_of f (map (with_bar m) cs) ≡ sum_of f cs
  unfolding sum_of
  sum-with_bar m [] = refl
  sum-with_bar m (c ∷ cs) = omega (arith, h.barred m c, sum-with_bar m cs)

  sum-panel :
      (rows : List UsageRow) (window : String) (known : ℕ)
      → sum_of f (build_usage_panel rows window known).clients ≡ sum_of g rows
  unfolding build_usage_panel sum_of
  sum-panel rows window known =
      omega (
        arith,
        sum-with_bar (largest (add_rows rows []) 0) (add_rows rows []),
        sum-add_rows rows [],
      )

-- The footer after the rows.
record IsFooter (t t' : UsageTotals) (rows : List UsageRow) : Type 0 where
  requests_footer : t'.requests ≡ t.requests + sum_of (λ r. r.requests) rows
  in_tokens_footer : t'.in_tokens ≡ t.in_tokens + sum_of (λ r. r.in_tokens) rows
  out_tokens_footer : t'.out_tokens ≡ t.out_tokens + sum_of (λ r. r.out_tokens) rows
  unreported_footer : t'.unreported ≡ t.unreported + sum_of (λ r. r.unreported) rows

add_totals-IsFooter : (rows : List UsageRow) (t : UsageTotals) → IsFooter t (add_totals rows t) rows
unfolding add_totals sum_of
add_totals-IsFooter [] t = record {
  requests_footer = omega arith;
  in_tokens_footer = omega arith;
  out_tokens_footer = omega arith;
  unreported_footer = omega arith;
}
add_totals-IsFooter (r ∷ rs) t =
    let rest = add_totals-IsFooter rs (record t {
      requests = t.requests + r.requests;
      in_tokens = t.in_tokens + r.in_tokens;
      out_tokens = t.out_tokens + r.out_tokens;
      unreported = t.unreported + r.unreported;
    }) in
    record {
      requests_footer = omega (arith, rest.requests_footer);
      in_tokens_footer = omega (arith, rest.in_tokens_footer);
      out_tokens_footer = omega (arith, rest.out_tokens_footer);
      unreported_footer = omega (arith, rest.unreported_footer);
    }

-- The figures of a panel add up: each client's over its models, and the footer's over the clients,
-- which it counts.
pub record AddsUp (p : UsagePanel) : Type 0 where
  pub clients_summed : All IsSummed p.clients
  pub clients_counted : p.totals.clients ≡ length p.clients
  pub requests_total : p.totals.requests ≡ sum_of (λ c. c.requests) p.clients
  pub in_tokens_total : p.totals.in_tokens ≡ sum_of (λ c. c.in_tokens) p.clients
  pub out_tokens_total : p.totals.out_tokens ≡ sum_of (λ c. c.out_tokens) p.clients
  pub unreported_total : p.totals.unreported ≡ sum_of (λ c. c.unreported) p.clients

requests-IsFigure : IsFigure (λ c. c.requests) (λ r. r.requests)
unfolding add_usage new_client with_bar
requests-IsFigure = record { added = λ r c. refl; starts = λ r. refl; barred = λ m c. refl }

in_tokens-IsFigure : IsFigure (λ c. c.in_tokens) (λ r. r.in_tokens)
unfolding add_usage new_client with_bar
in_tokens-IsFigure = record { added = λ r c. refl; starts = λ r. refl; barred = λ m c. refl }

out_tokens-IsFigure : IsFigure (λ c. c.out_tokens) (λ r. r.out_tokens)
unfolding add_usage new_client with_bar
out_tokens-IsFigure = record { added = λ r c. refl; starts = λ r. refl; barred = λ m c. refl }

unreported-IsFigure : IsFigure (λ c. c.unreported) (λ r. r.unreported)
unfolding add_usage new_client with_bar
unreported-IsFigure = record { added = λ r c. refl; starts = λ r. refl; barred = λ m c. refl }

length-with_bar : (m : ℕ) (cs : List ClientUsage) → length (map (with_bar m) cs) ≡ length cs
length-with_bar m [] = refl
length-with_bar m (c ∷ cs) = omega (arith, length-with_bar m cs)

-- For every list of rows, each client's figures are the sums over its models, and the footer's figures
-- are the sums over the clients that the panel shows, whose number it gives.
pub build_usage_panel-AddsUp :
    (rows : List UsageRow) (window : String) (known : ℕ)
    → AddsUp (build_usage_panel rows window known)
unfolding build_usage_panel
build_usage_panel-AddsUp rows window known =
    let footer = add_totals-IsFooter rows no_totals in
    record {
      clients_summed = with_bar-IsSummed _ _ (add_rows-IsSummed rows [] tt);
      clients_counted = sym (length-with_bar _ (add_rows rows []));
      requests_total =
          omega (arith, footer.requests_footer, sum-panel _ _ requests-IsFigure rows window known);
      in_tokens_total =
          omega
            (arith, footer.in_tokens_footer, sum-panel _ _ in_tokens-IsFigure rows window known);
      out_tokens_total =
          omega
            (arith, footer.out_tokens_footer, sum-panel _ _ out_tokens-IsFigure rows window known);
      unreported_total =
          omega
            (arith, footer.unreported_footer, sum-panel _ _ unreported-IsFigure rows window known);
    }
