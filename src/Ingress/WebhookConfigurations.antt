-- ===== src/Ingress/WebhookConfigurations.antt =====
-- GetWebhookConfigurations of pkg/traffic/ingress.go, and the types of admissionregistration/v1 that
-- it fills, each with the fields that it sets. A pointer to a constant is the constant.
use Prim.Native.String.{◌++◌ as ◌+++◌}
use multi_cluster_traffic_co.Prelude.{ℕ, String, Bool, List, [], ◌∷◌, if◌then◌else◌}

pub record Rule : Type 0 where
  pub api_groups : List String
  pub api_versions : List String
  pub resources : List String
  pub scope : String
  pub operations : List String

pub record MutatingWebhook : Type 0 where
  pub failure_policy : String
  pub match_policy : String
  pub name : String
  pub url : String
  pub ca_bundle : String
  pub rules : List Rule
  pub side_effects : String
  pub timeout_seconds : ℕ
  pub admission_review_versions : List String

-- A configuration, of validating or of mutating webhooks, under its name.
pub record WebhookConfiguration : Type 0 where
  pub name : String
  pub webhooks : List MutatingWebhook

-- The webhook for a host; without the file `/manager`, a failure of the call is ignored.
unfoldable pub ingress_webhook : Bool → String → String → MutatingWebhook
ingress_webhook is_running_locally host ca_bundle = record {
  failure_policy = if is_running_locally then "Ignore" else "Fail";
  match_policy = "Exact";
  name = "mctc.ingress.dev";
  url = "https://" +++ (host +++ "/ingress");
  ca_bundle = ca_bundle;
  rules =
      record {
        api_groups = "networking.k8s.io" ∷ [];
        api_versions = "v1" ∷ [];
        resources = "ingresses" ∷ "ingresses/status" ∷ [];
        scope = "*";
        operations = "CREATE" ∷ "UPDATE" ∷ [];
      }
      ∷ [];
  side_effects = "NoneOnDryRun";
  timeout_seconds = 5;
  admission_review_versions = "v1" ∷ [];
}

-- GetWebhookConfigurations, which reads nothing of the ingress: the validating and the mutating ones.
unfoldable pub get_webhook_configurations :
    Bool → String → String → List WebhookConfiguration × List WebhookConfiguration
unfolding ingress_webhook
get_webhook_configurations is_running_locally host ca_bundle = (
  [],
  record { name = "mctc"; webhooks = ingress_webhook is_running_locally host ca_bundle ∷ [] } ∷ [],
)
