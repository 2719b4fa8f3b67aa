-- ===== src/Aws/Session.antt =====
-- NewProvider of pkg/dns/aws/dns.go, and DNSProvider of pkg/dns/dns_provider.go, which calls it. The
-- session, the Route 53 client and the ids of the regions are the AWS SDK's, and parameters here.
use Prim.Native.String.{◌++◌ as ◌+++◌}
use multi_cluster_traffic_co.Prelude.{
  String, ◌||◌, Option, none, some, List, [], ◌∷◌, ◌==◌, ◌≡◌, refl, if◌then◌else◌, Error, errorf,
  Result, ok, err, panic, Exec, pure,
}
use multi_cluster_traffic_co.Provider.{Provider, fake_provider}

-- The constants of the package `endpoints` that the code names.
pub record RegionIds : Type 0 where
  pub cn_north1 : String
  pub cn_northwest1 : String
  pub us_gov_east1 : String
  pub us_gov_west1 : String
  pub us_iso_east1 : String
  pub us_east1 : String

-- What `aws.NewConfig()` is given: a region, and an endpoint if one is set.
pub record Route53Config : Type 0 where
  pub region : String
  pub endpoint : Option String

-- chinaRoute53Endpoint
abbrev pub china_route53_endpoint : String
china_route53_endpoint = "https://route53.amazonaws.com.cn"

-- The switch of `NewProvider`.
unfoldable pub r53_config : RegionIds → String → Route53Config
r53_config ids region =
    if region == ids.cn_north1 || region == ids.cn_northwest1
    then record { region = ids.cn_northwest1; endpoint = some china_route53_endpoint }
    else if region == ids.us_gov_east1 || region == ids.us_gov_west1
    then record { region = ids.us_gov_west1; endpoint = none }
    else if region == ids.us_iso_east1
    then record { region = region; endpoint = none }
    else record { region = ids.us_east1; endpoint = none }

-- `session.NewSession`, `route53.New`, and what the code calls with the client.
pub record Sdk (S Session Client : Type 0) : Type 0 where
  pub ids : RegionIds
  pub new_session : String → Exec S Session
  pub new_client : Session → Route53Config → Client
  pub list_hosted_zones : Client → Exec S (Unit {0})
  pub aggregate : List Error → Error

-- An error with text in front.
abbrev pub prefixed : String → Error → Error
prefixed text e = errorf (text +++ e.message)

module _ {S Session Client : Type 0} (sdk : Sdk S Session Client) where
  open sdk use {ids, new_session, new_client, list_hosted_zones, aggregate}

  -- validateServiceEndpoints; the aggregate of no errors is nil.
  unfoldable pub validate_service_endpoints : Client → Exec S (Unit {0})
  validate_service_endpoints client s =
      let (listed, s') = list_hosted_zones client s in
      elim listed [
        | ok done ↦ (ok tt, s')
        | err e ↦ (err (aggregate (prefixed "failed to list route53 hosted zones: " e ∷ [])), s')
        | panic ↦ (panic, s')
      ]

  -- The end of `NewProvider`.
  unfoldable pub validated : Client → Result (Unit {0}) → Result Client
  validated client (ok done) = ok client
  validated client (err e) = err (prefixed "failed to validate AWS provider service endpoints: " e)
  validated client panic = panic

  -- `NewProvider` after the session.
  unfoldable pub with_session : String → Result Session → Exec S Client
  unfolding validate_service_endpoints validated
  with_session region (ok session) s =
      let client = new_client session (r53_config ids region) in
      let (answer, s') = validate_service_endpoints client s in (validated client answer, s')
  with_session region (err e) s = (err (prefixed "couldn't create AWS client session: " e), s)
  with_session region panic s = (panic, s)

  -- NewProvider, at the region of its Config.
  unfoldable pub new_provider : String → Exec S Client
  unfolding with_session
  new_provider region s = let (session, s') = new_session region s in with_session region session s'

  -- newAWSDNSProvider
  unfoldable pub new_aws_dns_provider : (Client → Provider S) → Exec S (Provider S)
  unfolding new_provider
  new_aws_dns_provider provider_of s =
      let (made, s') = new_provider "" s in
      (
        elim made [
          | ok client ↦ ok (provider_of client)
          | err e ↦ err (prefixed "failed to create AWS DNS manager: " e)
          | panic ↦ panic
        ],
        s',
      )

  -- DNSProvider
  unfoldable pub dns_provider : (Client → Provider S) → String → Exec S (Provider S)
  unfolding new_aws_dns_provider
  dns_provider provider_of name =
      if name == "aws" then new_aws_dns_provider provider_of else pure fake_provider

  -- The client that the program sends its changes with: no region is configured.
  abbrev pub default_client : Session → Client
  default_client session = new_client session (r53_config ids "")

  -- The error for a listing that failed.
  abbrev pub listing_error : Error → Error
  listing_error e = prefixed "failed to create AWS DNS manager: " (
      prefixed "failed to validate AWS provider service endpoints: "
        (aggregate (prefixed "failed to list route53 hosted zones: " e ∷ [])))

  -- What is to come of the listing of the zones.
  abbrev pub from_listing : Provider S → Result (Unit {0}) → Result (Provider S)
  from_listing provider (ok done) = ok provider
  from_listing provider (err e) = err (listing_error e)
  from_listing provider panic = panic

  -- Where the session is made, DNSProvider of "aws" gives the provider of the client that NewProvider
  -- makes for no region if this client can list the zones, and else an error with that of the listing
  -- in it; the listing is the one call that it makes.
  pub dns_provider-listing :
      (provider_of : Client → Provider S) (session : Session) (s s1 s2 : S)
      (listed : Result (Unit {0}))
      → new_session "" s ≡ (ok session, s1)
      → list_hosted_zones (default_client session) s1 ≡ (listed, s2)
      → dns_provider provider_of "aws" s
        ≡ (from_listing (provider_of (default_client session)) listed, s2)
  unfolding dns_provider new_aws_dns_provider new_provider with_session validate_service_endpoints
      validated
  dns_provider-listing provider_of session s s1 s2 (ok done) made answer =
      rw (made, with_session, validate_service_endpoints, answer, answer) refl
  dns_provider-listing provider_of session s s1 s2 (err e) made answer =
      rw (made, with_session, validate_service_endpoints, answer, answer) refl
  dns_provider-listing provider_of session s s1 s2 panic made answer =
      rw (made, with_session, validate_service_endpoints, answer, answer) refl
