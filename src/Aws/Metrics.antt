-- ===== src/Aws/Metrics.antt =====
-- pkg/dns/aws/client.go and metrics.go: the calls of Route 53, counted by operation and return code.
use multi_cluster_traffic_co.Prelude.{
  ℕ, suc, ◌-◌, String, ◌&&◌, List, [], ◌∷◌, ◌==◌, ◌≡◌, refl, arith, eq_iff, if◌then◌else◌, Error,
  Result, ok, err, panic, Exec, ap, ◌∙◌,
}

-- The metrics of metrics.go; of a duration only the operation and the code are kept.
pub record Metrics : Type 0 where
  pub route53_request_count : String → ℕ
  pub route53_request_total : String → String → ℕ
  pub route53_request_errors : String → String → ℕ
  pub route53_request_duration : List (String × String)

-- The metrics as `init` sets them.
abbrev pub initial_metrics : Metrics
initial_metrics = record {
  route53_request_count = λ operation. 0;
  route53_request_total = λ operation code. 0;
  route53_request_errors = λ operation code. 0;
  route53_request_duration = [];
}

-- `WithLabelValues(operation).Inc()` and `Dec()`
abbrev pub inc : String → (String → ℕ) → String → ℕ
inc operation counts o = if o == operation then suc (counts o) else counts o

abbrev pub dec : String → (String → ℕ) → String → ℕ
dec operation counts o = if o == operation then counts o - 1 else counts o

-- `WithLabelValues(operation, code).Inc()`
abbrev pub inc_code : String → String → (String → String → ℕ) → String → String → ℕ
inc_code operation code counts o c =
    if o == operation && c == code then suc (counts o c) else counts o c

-- returnCodeLabelDefault
abbrev pub return_code_label_default : String
return_code_label_default = ""

module _ {A : Type 0} (code_of : Error → String) where
  -- What `observe` counts after the call; `code_of` gives the code of an error of the SDK.
  unfoldable pub count_outcome : String → Result A → Metrics → Metrics
  count_outcome operation (ok a) m = record m {
    route53_request_duration = (operation, return_code_label_default) ∷ m.route53_request_duration;
    route53_request_total = inc_code operation return_code_label_default m.route53_request_total;
  }
  count_outcome operation (err e) m = record m {
    route53_request_errors = inc_code operation return_code_label_default m.route53_request_errors;
    route53_request_duration = (operation, code_of e) ∷ m.route53_request_duration;
    route53_request_total = inc_code operation (code_of e) m.route53_request_total;
  }
  count_outcome operation panic m = m

module _ {S A : Type 0} (code_of : Error → String) where
  -- observe, around a call; the deferred `Dec` comes last, also after a panic.
  unfoldable pub observe : String → Exec S A → Exec (Metrics × S) A
  unfolding count_outcome
  observe operation f (m, s) =
      let started = record m { route53_request_count = inc operation m.route53_request_count } in
      let (outcome, s') = f s in
      let counted = count_outcome code_of operation outcome started in
      (
        outcome,
        (
          record counted { route53_request_count = dec operation counted.route53_request_count },
          s',
        ),
      )

module _ {S In Out : Type 0} (code_of : Error → String) (call : In → Exec S Out) where
  -- ListHostedZones
  unfoldable pub list_hosted_zones : In → Exec (Metrics × S) Out
  unfolding observe
  list_hosted_zones input = observe code_of "ListHostedZones" (call input)

  -- ChangeResourceRecordSets
  unfoldable pub change_resource_record_sets : In → Exec (Metrics × S) Out
  unfolding observe
  change_resource_record_sets input = observe code_of "ChangeResourceRecordSets" (call input)

  -- CreateHealthCheck
  unfoldable pub create_health_check : In → Exec (Metrics × S) Out
  unfolding observe
  create_health_check input = observe code_of "CreateHealthCheck" (call input)

  -- GetHealthCheckWithContext
  unfoldable pub get_health_check_with_context : In → Exec (Metrics × S) Out
  unfolding observe
  get_health_check_with_context input = observe code_of "GetHealthCheckWithContext" (call input)

  -- UpdateHealthCheckWithContext
  unfoldable pub update_health_check_with_context : In → Exec (Metrics × S) Out
  unfolding observe
  update_health_check_with_context input =
      observe code_of "UpdateHealthCheckWithContext" (call input)

  -- DeleteHealthCheckWithContext
  unfoldable pub delete_health_check_with_context : In → Exec (Metrics × S) Out
  unfolding observe
  delete_health_check_with_context input =
      observe code_of "DeleteHealthCheckWithContext" (call input)

  -- ChangeTagsForResourceWithContext
  unfoldable pub change_tags_for_resource_with_context : In → Exec (Metrics × S) Out
  unfolding observe
  change_tags_for_resource_with_context input =
      observe code_of "ChangeTagsForResourceWithContext" (call input)

dec-inc :
    (operation : String) (counts : String → ℕ) (o : String)
    → dec operation (inc operation counts) o ≡ counts o
dec-inc operation counts o = ground (arith, eq_iff o operation)

module _ {A : Type 0} (code_of : Error → String) (operation : String) where
  count_outcome-request_count :
      (r : Result A) (m : Metrics)
      → (count_outcome code_of operation r m).route53_request_count ≡ m.route53_request_count
  unfolding count_outcome
  count_outcome-request_count (ok a) m = refl
  count_outcome-request_count (err e) m = refl
  count_outcome-request_count panic m = refl

  -- The errors that `observe` counts after a call.
  abbrev pub errors_after : Result A → (String → String → ℕ) → String → String → ℕ
  errors_after (ok a) counts = counts
  errors_after (err e) counts = inc_code operation "" counts
  errors_after panic counts = counts

  -- The calls that `observe` counts after a call.
  abbrev pub total_after : Result A → (String → String → ℕ) → String → String → ℕ
  total_after (ok a) counts = inc_code operation "" counts
  total_after (err e) counts = inc_code operation (code_of e) counts
  total_after panic counts = counts

  count_outcome-request_errors :
      (r : Result A) (m : Metrics)
      → (count_outcome code_of operation r m).route53_request_errors
        ≡ errors_after r m.route53_request_errors
  unfolding count_outcome
  count_outcome-request_errors (ok a) m = refl
  count_outcome-request_errors (err e) m = refl
  count_outcome-request_errors panic m = refl

  count_outcome-request_total :
      (r : Result A) (m : Metrics)
      → (count_outcome code_of operation r m).route53_request_total
        ≡ total_after r m.route53_request_total
  unfolding count_outcome
  count_outcome-request_total (ok a) m = refl
  count_outcome-request_total (err e) m = refl
  count_outcome-request_total panic m = refl

-- A call through `observe` gives the result and the state of the call itself; the number of calls in
-- flight is afterwards what it was for every operation; every error is counted without its code, and a
-- call that returns is counted once in the total, under its code.
pub observe_counts :
    {S A : Type 0} (code_of : Error → String) (operation : String) (f : Exec S A) (m : Metrics)
    (s : S)
    → (let after = (observe code_of operation f (m, s)).1.0 in
        ((observe code_of operation f (m, s)).0 ≡ (f s).0)
        × ((observe code_of operation f (m, s)).1.1 ≡ (f s).1)
        × ((o : String) → after.route53_request_count o ≡ m.route53_request_count o)
        × (after.route53_request_errors
            ≡ errors_after code_of operation (f s).0 m.route53_request_errors)
        × (after.route53_request_total
            ≡ total_after code_of operation (f s).0 m.route53_request_total))
unfolding observe
observe_counts code_of operation f m s =
    let started = record m { route53_request_count = inc operation m.route53_request_count } in
    (
      refl,
      refl,
      λ o.
          ap (λ counts. dec operation counts o)
            (count_outcome-request_count code_of operation (f s).0 started)
          ∙ dec-inc operation m.route53_request_count o,
      count_outcome-request_errors code_of operation (f s).0 started,
      count_outcome-request_total code_of operation (f s).0 started,
    )
