-- ===== src/Tests/Status.antt =====
-- Endpoints and the status of a service.
use rio.Prelude.{
  Text, str, has_prefix, trim_prefix, has_prefix-append, trim_prefix-append, ◌≡◌, refl, inl, inr,
  any, true, false, Option, none, some, List, [], ◌∷◌, ◌++◌, if◌then◌else◌, ap,
}
use rio.Prelude.Int.{pos}
use rio.Prelude.Unique.{Distinct}
use rio.Prelude.Sort.{IsSorted, HasSameMembers}
use rio.Strconv.{format_int}
use rio.Api.Service.{Service, Protocol, is_exposed, is_http}
use rio.Api.Domain.{ClusterDomain, PublicDomain}
use rio.Services.{app_and_version, to_named_containers, container_is_valid}
use rio.Endpoints.{Resolver, is_public, service_endpoints}
use rio.Endpoints.Hosts.{
  IsUrlParse, IsScheme, IsResolved, is_name, name_below, hosts_of, service_endpoints-hosts,
}
use rio.VsFactory.Target.{determine_hosts}
use rio.Status.{Caches, Controller, Owned, Lookup}
use rio.Tests.Data.{plain, plain_spec, plain_container}

-- What stands behind `http://` or `https://`.
abbrev behind_scheme : Text → Option Text
behind_scheme url = some (
    if has_prefix url (str "http://")
    then trim_prefix url (str "http://")
    else trim_prefix url (str "https://"))

behind_http : (s : Text) → behind_scheme (str "http://" ++ s) ≡ some s
behind_http s =
    rw (has_prefix-append (str "http://") s) (ap some (trim_prefix-append (str "http://") s))

not_http : (s : Text) → has_prefix (str "https://" ++ s) (str "http://") ≡ false
unfolding has_prefix str
not_http s = refl

behind_https : (s : Text) → behind_scheme (str "https://" ++ s) ≡ some s
behind_https s = rw (not_http s) (ap some (trim_prefix-append (str "https://") s))

http_url : (s : Text) → str "http" ++ (str "://" ++ s) ≡ str "http://" ++ s
unfolding str
http_url s = refl

https_url : (s : Text) → str "https" ++ (str "://" ++ s) ≡ str "https://" ++ s
unfolding str
https_url s = refl

behind_scheme-url :
    (scheme s : Text) → IsScheme scheme → behind_scheme (scheme ++ (str "://" ++ s)) ≡ some s
behind_scheme-url scheme s (inl e) = rw e (rw (http_url s) (behind_http s))
behind_scheme-url scheme s (inr e) = rw e (rw (https_url s) (behind_https s))

behind_scheme-IsUrlParse : IsUrlParse behind_scheme
behind_scheme-IsUrlParse = record {
  plain = λ scheme host h n. behind_scheme-url scheme host h;
  with_port = λ scheme host port h n.
      behind_scheme-url scheme (host ++ (str ":" ++ format_int (pos port))) h;
}

abbrev with_port : Service
with_port = record plain {
  spec = record plain_spec {
    container = record plain_container {
      ports =
          record {
            name = [];
            expose = none;
            protocol = Protocol.http;
            port = pos 80;
            target_port = pos 8080;
            host_port = false;
          }
          ∷ [];
    };
  };
}

abbrev shop_org : PublicDomain
shop_org = record {
  name = str "shop.org";
  namespace = str "default";
  target_app = str "web";
  target_router = [];
  target_namespace = [];
  assigned_secret_name = [];
  https_supported = true;
}

abbrev on_rio : ClusterDomain
on_rio = record {
  name = str "on-rio.io";
  namespace = [];
  addresses = [];
  https_port = pos 9443;
  http_port = pos 80;
  assigned_secret_name = [];
  https_supported = true;
}

abbrev first_of : List Text → Text
first_of [] = []
first_of (t ∷ more) = t

abbrev resolver : Resolver
resolver = record {
  cluster_domains = some (on_rio ∷ []);
  public_domains_by_target = λ key. some (shop_org ∷ []);
  safe_concat_name = first_of;
}

with_port-IsResolved : IsResolved resolver with_port (shop_org ∷ []) (on_rio ∷ [])
unfolding is_public any is_exposed is_http str to_named_containers container_is_valid
with_port-IsResolved = record {
  public = refl;
  by_target = refl;
  clusters = refl;
  named = (refl, tt);
  reachable =
      (record { http = 79; https = 9442; named = refl; http_port = refl; https_port = refl }, tt);
}

with_port-name : is_name (name_below resolver with_port) ≡ true
unfolding app_and_version str
with_port-name = refl

service_endpoints-hosts_example :
    (urls : List Text) × (hosts : List Text) × (service_endpoints resolver with_port ≡ some urls)
    × (determine_hosts behind_scheme urls ≡ some hosts)
    × IsSorted hosts
    × Distinct hosts
    × HasSameMembers (hosts_of resolver with_port (shop_org ∷ []) (on_rio ∷ [])) hosts
service_endpoints-hosts_example =
    service_endpoints-hosts resolver behind_scheme with_port (shop_org ∷ []) (on_rio ∷ [])
      behind_scheme-IsUrlParse with_port-IsResolved with_port-name

abbrev owned : Owned
owned = record {
  labels = (str "rio.cattle.io/service", str "web-v1") ∷ [];
  controller = Controller.daemon_set (pos 2) (pos 0);
}

abbrev caches : Caches
caches = record {
  deployments = λ namespace name. Lookup.not_found;
  daemon_sets = λ namespace name. Lookup.found owned;
  stateful_sets = λ namespace name. Lookup.failed;
}
