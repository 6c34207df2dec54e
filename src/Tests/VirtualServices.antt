-- ===== src/Tests/VirtualServices.antt =====
-- Ports, targets and virtual services.
use rio.Prelude.{
  Text, str, text_eq, any, ◌≡◌, refl, arith, true, false, Option, none, some, List, [], ◌∷◌, ℕ,
}
use rio.Prelude.Int.{ℤ, pos}
use rio.Prelude.Maps.{insert}
use rio.Prelude.Unique.{Distinct, add_new, has}
use rio.Prelude.Sort.{IsSorted, HasSameMembers}
use rio.Float.Rational.{rational, rational-IsIeee}
use rio.Api.Service.{Service, ContainerPort, Protocol}
use rio.Api.Router.{Router}
use rio.Api.Domain.{PublicDomain}
use rio.VsFactory.Gloo.{VirtualService}
use rio.VsFactory.Target.{Target, determine_hosts, spread, add_hosts}
use rio.VsFactory.Target.Hosts.{determine_hosts-IsSorted}
use rio.VsFactory.Target.Shares.{HaveWeights, AreFair, sum, spread-AreFair}
use rio.VsFactory.Tls.{Caches, find_tls, add_public_domains, add_domains}
use rio.VsFactory.Factory.{Env, for_router, domains}
use rio.VsFactory.Factory.Redirects.{IsRanged, AreServed, for_router-AreServed}
use rio.Tests.Data.{plain, plain_spec, plain_container}
use rio.Tests.Routes.{retried, first_of, to_http}

abbrev port_80 : ContainerPort
port_80 = record {
  name = [];
  expose = none;
  protocol = Protocol.unset;
  port = pos 80;
  target_port = pos 8080;
  host_port = false;
}

-- The same port twice, and one with a target only.
abbrev with_ports : Service
with_ports = record plain {
  spec = record plain_spec {
    container = record plain_container {
      ports =
          port_80
          ∷ record port_80 { protocol = Protocol.http }
          ∷ record port_80 { port = pos 0 }
          ∷ [];
    };
  };
}

-- Every text is its own host.
abbrev own_host : Text → Option Text
own_host url = some url

abbrev two_hosts : List Text
two_hosts = str "b.org" ∷ str "a.org" ∷ str "b.org" ∷ []

determine_hosts-IsSorted_example :
    (result : List Text) × (determine_hosts own_host two_hosts ≡ some result)
    × IsSorted result
    × Distinct result
    × HasSameMembers two_hosts result
determine_hosts-IsSorted_example =
    determine_hosts-IsSorted own_host two_hosts two_hosts (refl, (refl, (refl, tt)))

abbrev target : ℤ → Target
target weight = record {
  hosts = [];
  port = pos 80;
  name = str "web-v1";
  app = str "web";
  version = str "v1";
  namespace = str "default";
  weight = weight;
  scale_is_zero = false;
  original_name = [];
  original_namespace = [];
}

abbrev three_targets : List Target
three_targets = target (pos 1) ∷ target (pos 1) ∷ target (pos 1) ∷ []

spread-AreFair_example :
    (ms : List ℕ) × HaveWeights (spread rational true three_targets) ms
    × (sum ms ≡ 100)
    × AreFair 3 (1 ∷ 1 ∷ 1 ∷ []) ms
spread-AreFair_example =
    spread-AreFair rational three_targets (1 ∷ 1 ∷ 1 ∷ []) rational-IsIeee
      (refl, (refl, (refl, tt))) (omega arith) (omega arith)

abbrev shop_org : PublicDomain
shop_org = record {
  name = str "shop.org";
  namespace = str "default";
  target_app = [];
  target_router = str "shop";
  target_namespace = [];
  assigned_secret_name = str "shop";
  https_supported = true;
}

-- One public domain has a certificate.
abbrev pub caches : Caches
caches = record {
  cluster_domains = some [];
  public_domains_by_target = λ key. some (shop_org ∷ []);
  has_public_domain = λ domain. true;
  has_secret = λ namespace name. true;
  split_host_port = λ hostname. none;
  ranged = λ found. found;
  safe_concat_name = first_of;
  system_namespace = str "rio-system";
}

abbrev pub env : Env
env = record {
  caches = caches;
  parse_host = own_host;
  list_endpoints = λ app version namespace. some [];
  float64 = rational;
  sort_slice = λ less services. services;
}

abbrev pub shop : Router
shop = record {
  name = str "shop";
  namespace = str "default";
  internal = false;
  routes = record retried { redirect = some (record to_http { to_https = true }) } ∷ [];
  endpoints = str "shop.org" ∷ [];
}

shop-domains : domains env shop ≡ some (str "shop.org" ∷ [])
unfolding domains add_hosts add_new any has str text_eq
shop-domains = refl

pub shop-certificates :
    find_tls caches (str "default") (str "shop") [] (str "shop.org" ∷ [])
    ≡ some ((str "shop.org", str "shop") ∷ [])
unfolding find_tls add_public_domains add_domains insert str
shop-certificates = refl

pub found-IsRanged : (found : List (Text × Text)) → IsRanged found found
found-IsRanged found = record { same = λ e. (λ m. m, λ m. m); once = refl }

for_router-AreServed_example :
    (plain : VirtualService) × (copies : List VirtualService) × (for_router env shop
      ≡ some (plain ∷ copies))
    × AreServed env shop (str "shop.org" ∷ []) ((str "shop.org", str "shop") ∷ []) plain copies
for_router-AreServed_example =
    for_router-AreServed env shop (str "shop.org" ∷ []) ((str "shop.org", str "shop") ∷ [])
      (found-IsRanged ((str "shop.org", str "shop") ∷ [])) shop-domains shop-certificates
