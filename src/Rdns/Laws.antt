-- ===== src/Rdns/Laws.antt =====
-- The cluster domain that the handler of modules/rdns/controllers/service/handler.go generates.
use rio.Prelude.{
  Text, text_eq, text_eq_iff, is_empty, is_cons, not, ◌||◌, ◌≡◌, refl, sym, ◌∙◌, Bool, true, false,
  some, Bool-cases, Option-cases, inl, inr, List, [], ◌∷◌, arith,
}
use rio.Api.Domain.{Address, ClusterDomain}
use rio.Rdns.{
  Handler, Outcome, generated, set_port, set_ports, domain_of, get_domain, with_domain,
  generate_from_service,
}
use rio.Rdns.Cluster.{Environment, GatewayService, GatewayPort}
use rio.Rdns.Addresses.{get_addresses}
use rio.Rdns.Reach.{IsReached, IsReached-HasStarted}

module _ (env : Environment) where
  -- The loop over the ports leaves the rest of the domain alone.
  abbrev IsSamePlace : ClusterDomain → ClusterDomain → Type 0
  IsSamePlace d e = (d.name ≡ e.name) × (d.namespace ≡ e.namespace) × (d.addresses ≡ e.addresses)

  set_port-IsSamePlace :
      (node_port : Bool) (p : GatewayPort) (d : ClusterDomain)
      → IsSamePlace (set_port env node_port p d) d
  unfolding set_port
  set_port-IsSamePlace node_port p d = (ground arith, ground arith, ground arith)

  set_ports-IsSamePlace :
      (node_port : Bool) (ports : List GatewayPort) (d : ClusterDomain)
      → IsSamePlace (set_ports env node_port ports d) d
  unfolding set_ports
  set_ports-IsSamePlace node_port [] d = (refl, refl, refl)
  set_ports-IsSamePlace node_port (p ∷ ports) d =
      let (a, b, c) = set_port-IsSamePlace node_port p d in
      let (x, y, z) = set_ports-IsSamePlace node_port ports (set_port env node_port p d) in
      (x ∙ a, y ∙ b, z ∙ c)

  with_domain-generated :
      (addresses : List Address) (make : Text → Outcome) (d : ClusterDomain)
      → with_domain env addresses make ≡ generated d
      → (name : Text) × (is_cons addresses ≡ true)
        × (is_empty name ≡ false)
        × (make name ≡ generated d)
  unfolding with_domain
  with_domain-generated addresses make d e = elim (Bool-cases (is_cons addresses)) [
    | inr empty ↦ absurd (cc (e, empty))
    | inl filled ↦ elim (Option-cases (get_domain env addresses)) [
      | inl failed ↦ absurd (cc (e, filled, failed))
      | inr (name, got) ↦ elim (Bool-cases (is_empty name)) [
        | inl unnamed ↦ absurd (cc (e, filled, got, unnamed))
        | inr named ↦ (name, filled, named, cc (e, filled, got, named))
      ]
    ]
  ]

  -- The service is the gateway of the handler.
  pub record IsGateway (h : Handler) (svc : GatewayService) : Type 0 where
    pub known : is_empty h.gateway_name ≡ false
    pub name : svc.name ≡ h.gateway_name
    pub namespace : svc.namespace ≡ h.gateway_namespace

  abbrev is_other : Handler → GatewayService → Bool
  is_other h svc =
      is_empty h.gateway_name
      || is_empty h.gateway_namespace
      || not (text_eq svc.namespace h.gateway_namespace)
      || not (text_eq svc.name h.gateway_name)

  IsGateway-of : (h : Handler) (svc : GatewayService) → is_other h svc ≡ false → IsGateway h svc
  IsGateway-of h svc e = record {
    known = ground arith;
    name = (text_eq_iff svc.name h.gateway_name).0 (ground arith);
    namespace = (text_eq_iff svc.namespace h.gateway_namespace).0 (ground arith);
  }

  -- The domain has the name that the client gave, the addresses that were found and the namespace
  -- of the service.
  IsDomainOf : GatewayService → ClusterDomain → Type 0
  IsDomainOf svc d =
      (is_empty d.name ≡ false)
      × (d.namespace ≡ svc.namespace)
      × (is_cons d.addresses ≡ true)
      × ((node_port : Bool) × (get_addresses env svc ≡ some (d.addresses, node_port)))

  IsDomainOf-set_ports :
      (svc : GatewayService) (d : ClusterDomain) (name : Text) (addresses : List Address)
      (node_port : Bool)
      → is_empty name ≡ false
      → is_cons addresses ≡ true
      → get_addresses env svc ≡ some (addresses, node_port)
      → set_ports env node_port svc.ports (domain_of env name svc.namespace addresses) ≡ d
      → IsDomainOf svc d
  unfolding IsDomainOf
  IsDomainOf-set_ports svc d name addresses node_port named filled got made =
      let (x, y, z) =
        set_ports-IsSamePlace node_port svc.ports (domain_of env name svc.namespace addresses) in
      rw (sym made) (rw (x, y, z) (named, refl, filled, (node_port, got)))

  generated_inverse :
      (h : Handler) (svc : GatewayService) (d : ClusterDomain)
      → generate_from_service env h svc ≡ generated d
      → IsGateway h svc × IsDomainOf svc d
  unfolding generate_from_service
  generated_inverse h svc d e = elim (Bool-cases (is_other h svc)) [
    | inl other ↦ absurd (cc (e, other))
    | inr gateway ↦ elim (Option-cases (get_addresses env svc)) [
      | inl failed ↦ absurd (cc (e, gateway, failed))
      | inr ((addresses, node_port), got) ↦
          let (name, filled, named, made) =
            with_domain-generated addresses
              (λ n.
                generated
                  (set_ports env node_port svc.ports (domain_of env n svc.namespace addresses)))
              d (cc (e, gateway, got)) in
          (
            IsGateway-of h svc gateway,
            IsDomainOf-set_ports svc d name addresses node_port named filled got (cc made),
          )
    ]
  ]

  -- If a handler that changes of the config map have led to generates a cluster domain for a
  -- service, then it has begun to renew the domain, the service is the gateway that it was told,
  -- and the domain has a name, the namespace of the service, and at least one address: those that
  -- were found for the service.
  pub generate_from_service_sound :
      (h : Handler) (svc : GatewayService) (d : ClusterDomain)
      → IsReached env h
      → generate_from_service env h svc ≡ generated d
      → (h.started ≡ true)
        × (svc.name ≡ h.gateway_name)
        × (svc.namespace ≡ h.gateway_namespace)
        × (is_empty d.name ≡ false)
        × (d.namespace ≡ svc.namespace)
        × (is_cons d.addresses ≡ true)
        × ((node_port : Bool) × (get_addresses env svc ≡ some (d.addresses, node_port)))
  unfolding IsDomainOf
  generate_from_service_sound h svc d r e =
      let (gateway, (named, placed, filled, found)) = generated_inverse h svc d e in
      (
        (IsReached-HasStarted env h r).gateway gateway.known,
        gateway.name,
        gateway.namespace,
        named,
        placed,
        filled,
        found,
      )
