-- ===== src/Lib.antt =====
-- multi-cluster-traffic-controller: what the controllers decide, and what they write.
--
-- The program watches the ingresses of workload clusters. For each one the traffic controller
-- (pkg/controllers/traffic) asks the DNS service (pkg/dns/service.go) for a managed host, puts the
-- host into the ingress (pkg/traffic/ingress.go), asks the certificate service (pkg/tls) for a
-- certificate, and once its secret is there publishes the addresses of the ingress as endpoints of
-- a DNSRecord. The DNSRecord reconciler (pkg/controllers/dnsrecord) sends these to a DNS provider
-- (pkg/dns/aws), and keeps per zone in the status of the record what came of it. A secret that
-- registers a cluster (pkg/controllers/secret) starts the watch of the cluster
-- (pkg/multiClusterWatch) and lets the cluster reconciler (pkg/controllers/cluster) point the
-- cluster's API server at the admission webhook.
--
-- Prelude: shared notation. Outcome has Go's errors as values (`Result`, with panics apart) and
--   `Exec S A`, code over a state; StringMap is a Go map as an association list.
-- Text: the functions of strings and strconv that the code calls, on texts.
-- Api: pkg/apis/v1/dnsrecord_types.go. Types has the types, Endpoint the methods of Endpoint.
-- Slice: pkg/_internal/slice/slice.go.
-- Client: the Kubernetes client, as operations over an abstract state `S`, and the laws of a server
--   that stores objects under their keys. It is not of this repository, so it is a parameter.
-- Ingress: pkg/traffic/ingress.go. A method that changes the object returns the new object. RemoveTls
--   has RemoveTLS, with the arrays behind the slices, and WebhookConfigurations what the cluster
--   reconciler writes.
-- Metadata: pkg/_internal/metadata, labels and annotations.
-- DnsService: pkg/dns/service.go. Endpoints has what is computed on one record, Records the
--   reading operations, and Actions those that write: AddEndPoints, RemoveEndpoints, RegisterHost
--   and EnsureManagedHost. Addresses has the endpoints of a host as a list of addresses. Resolver:
--   pkg/dns/hostresolv.go.
-- Provider, Aws: pkg/dns/dns.go and pkg/dns/aws/dns.go. The call of Route 53 is a parameter.
--   Aws/Metrics: client.go and metrics.go beside it; Aws/Session: NewProvider, and
--   pkg/dns/dns_provider.go.
-- DnsRecord: pkg/controllers/dnsrecord/dnsrecord_controller.go. Status has the merges of statuses,
--   Reconcile the reconciler. Comparison has the law of `cmp.Equal`, by which the reconciler compares
--   statuses: equal ones agree on the ids of the zones, on the conditions up to their order, and on the
--   names, types and set identifiers of the endpoints. Route53 states what the zones of Route 53, which
--   tell record sets apart by name, type and set identifier (Aws/Zone), do with a batch, and Convergence
--   has edits, other changes and rounds of the reconciler as a step relation, where a SetID goes with one
--   name, type and set identifier, since updateRecord looks at SetIDs alone; Served in it
--   reads the zone that the rounds leave together with the endpoints of DnsService/Addresses, and Removal
--   has the zone of a record that is deleted.
-- Certificates: pkg/tls/service.go.
-- TrafficController: pkg/controllers/traffic/traffic_controller.go, with the services as the
--   interfaces HostService and CertificateService.
-- Watch: pkg/multiClusterWatch/watch.go, the events, and the worker with its queue;
--   Watch/Clusters: WatchCluster and NewClusterWatcher; Watch/Starting: WatchIngress and Start.
-- SecretController: pkg/controllers/secret/secret_controller.go, over the interfaces of Watch and Cluster.
-- Cluster: pkg/controllers/cluster/reconciler.go, and pkg/_internal/controller/run.go.
-- Webhook: pkg/admission/traffic/webhook_handler.go; Webhook/Server: pkg/admission/webhook_server.go and
--   pkg/admission/ingress/webhook_handler.go.
-- Wiring: main.go. `Platform` has what the program gets from outside, the services and the reconcilers
--   are made from it as `main` makes them, and `Manager` is the manager that `main` hands them to. The
--   modules below it follow a secret of a cluster, and an ingress, through the reconcilers of `main`.
-- Examples: a server that keeps a list, and each result applied at an input.
--
-- A call that returns more than an error beside a non-nil error gives a record with both, as
-- `Managed` and `Handled` do, where a caller reads both. Logging is left out. Every loop is over a
-- list and is structural recursion; fuel is used in Text, where a number `n` is printed
-- with `n + 1` steps, one for each digit at most, and in start_worker, whose loop ends only when the
-- queue is shut down; RemoveTls counts the rounds of its ranges, whose
-- number Go fixes at their start. An `int` that counts addresses is a natural number
-- and does not overflow for lists that fit into memory; what ParseInt reads is bounded by 2 ^ 63.
--
-- Not modelled: the flags, the logger and the scheme of main.go, the registration of the types
-- (pkg/apis/v1/groupversion_info.go) and the generated copies of pkg/apis/v1, which only pass on what
-- the modelled parts compute. The goroutines of the manager, of the watchers and of the HTTP server are
-- the outside's: a handler runs as one sequence of calls, between which the outside may change the
-- state only where a step or a hypothesis says so.
pub mod Prelude
pub mod Text
pub mod Api
pub mod Slice
pub mod Ingress
pub mod Client
pub mod Cluster
pub mod Metadata
pub mod SecretController
pub mod DnsService
pub mod Provider
pub mod Aws
pub mod DnsRecord
pub mod Certificates
pub mod TrafficController
pub mod Watch
pub mod Webhook
pub mod Wiring
pub mod Examples
