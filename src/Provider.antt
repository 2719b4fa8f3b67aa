-- ===== src/Provider.antt =====
-- pkg/dns/dns.go: the interface Provider and FakeProvider.
use multi_cluster_traffic_co.Prelude.{Exec, pure}
use multi_cluster_traffic_co.Api.Types.{DnsRecord, DnsZone}

pub record Provider (S : Type 0) : Type 0 where
  pub ensure : DnsRecord → DnsZone → Exec S (Unit {0})
  pub delete : DnsRecord → DnsZone → Exec S (Unit {0})

abbrev pub fake_provider : {S : Type 0} → Provider S
fake_provider = record { ensure = λ _ _. pure tt; delete = λ _ _. pure tt }
