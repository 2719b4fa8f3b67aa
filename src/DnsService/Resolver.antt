-- ===== src/DnsService/Resolver.antt =====
-- pkg/dns/hostresolv.go: the lookup of the addresses of a host. The file /etc/resolv.conf and the
-- exchange of messages with a name server (github.com/miekg/dns) are parameters.
use Prim.Native.String.{◌++◌ as ◌+++◌}
use multi_cluster_traffic_co.Prelude.{
  ℕ, ◌*◌, String, Bool, true, false, Option, none, some, List, [], ◌∷◌, ◌≡◌, refl, errorf, Result,
  ok, err, panic, Exec, pure, fail, ◌>>=◌, proceed, if◌then◌else◌,
}
use multi_cluster_traffic_co.Slice.{find}
use multi_cluster_traffic_co.DnsService.Records.{HostAddress}

-- A record of an answer: an A record with its address and its TTL in seconds, or one of another type.
pub data Answer (Ip : Type 0) : Type 0 where
  a_record : Ip → ℕ → Answer Ip
  other_record : Answer Ip

-- DefaultHostResolver: the servers of the configuration, and the exchange of a question for A records,
-- by its name, with a server, by its address.
pub record DefaultHostResolver (S Ip : Type 0) : Type 0 where
  pub servers : Exec S (List String)
  pub exchange : String → String → Exec S (List (Answer Ip))

-- The loop over an answer; a duration is a number of nanoseconds.
unfoldable pub results_of : {Ip : Type 0} → String → List (Answer Ip) → List (HostAddress Ip)
results_of host [] = []
results_of host (a_record ip ttl ∷ answers) =
    record { host = host; ip = ip; ttl = ttl * 1000000000; txt = "" } ∷ results_of host answers
results_of host (other_record ∷ answers) = results_of host answers

module _ {S Ip : Type 0} (hr : DefaultHostResolver S Ip) where
  open hr use {servers, exchange}

  -- The loop over the servers.
  unfoldable pub ask : String → List String → Exec S (List (HostAddress Ip))
  unfolding results_of
  ask host [] = fail (errorf "no records found for host")
  ask host (server ∷ others) = exchange (host +++ ".") (server +++ ":53") >>= λ answers.
      elim answers [ [] ↦ ask host others | first ∷ rest ↦ pure (results_of host (first ∷ rest)) ]

  -- LookupIPAddr of DefaultHostResolver, and that of SafeHostResolver, which takes its mutex around it.
  unfoldable pub lookup_ip_addr : String → Exec S (List (HostAddress Ip))
  unfolding ask
  lookup_ip_addr host = servers >>= ask host

-- A server whose answer ends the loop: an error, or an answer that has a record.
abbrev pub settles : {Ip : Type 0} → Result (List (Answer Ip)) → Bool
settles (ok []) = false
settles (ok (answer ∷ answers)) = true
settles (err e) = true
settles panic = true

-- What the answer of the server that settles the lookup makes of it.
abbrev pub outcome :
    {Ip : Type 0} → String → Result (List (Answer Ip)) → Result (List (HostAddress Ip))
outcome host (ok answers) = ok (results_of host answers)
outcome host (err e) = err e
outcome host panic = panic

-- What is made of the first server that settles the lookup, where there is one.
abbrev pub settled :
    {Ip : Type 0}
    → String
    → (String → Result (List (Answer Ip)))
    → Option String
    → Result (List (HostAddress Ip))
settled host answer none = err (errorf "no records found for host")
settled host answer (some server) = outcome host (answer server)

module _ {S Ip : Type 0} (hr : DefaultHostResolver S Ip) (host : String)
    (answer : String → Result (List (Answer Ip)))
    (fixed : (server : String) (s : S)
      → hr.exchange (host +++ ".") (server +++ ":53") s ≡ (answer server, s)) where
  -- One round of the loop, at what the server answers.
  round-settled :
      (server : String) (rest : Option String) (next : Exec S (List (HostAddress Ip))) (s : S)
      (r : Result (List (Answer Ip)))
      → answer server ≡ r
      → next s ≡ (settled host answer rest, s)
      → proceed r
          (λ answers. elim answers [
            | [] ↦ next
            | first ∷ others ↦ pure (results_of host (first ∷ others))
          ])
          s
        ≡ (settled host answer (if settles r then some server else rest), s)
  round-settled server rest next s (ok []) e h = h
  round-settled server rest next s (ok (first ∷ others)) e h = rw e refl
  round-settled server rest next s (err x) e h = rw e refl
  round-settled server rest next s panic e h = rw e refl

  ask-settled :
      (servers : List String) (s : S)
      → ask hr host servers s
        ≡ (settled host answer (find servers (λ server. settles (answer server))), s)
  unfolding ask find
  ask-settled [] s = refl
  ask-settled (server ∷ others) s = rw (fixed server s) (
      round-settled server (find others (λ x. settles (answer x))) (ask hr host others) s
        (answer server) refl (ask-settled others s))

  -- DefaultHostResolver asks the servers in their order up to the first one that gives an error or an
  -- answer with a record, and what it returns is made of the answer of that server alone: its error, or
  -- the A records of its answer, of which there may be none. Without such a server it is an error.
  pub lookup_ip_addr-settled :
      (servers : List String) (s s' : S)
      → hr.servers s ≡ (ok servers, s')
      → lookup_ip_addr hr host s
        ≡ (settled host answer (find servers (λ server. settles (answer server))), s')
  unfolding lookup_ip_addr
  lookup_ip_addr-settled servers s s' configured = rw configured (ask-settled servers s')
