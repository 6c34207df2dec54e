-- ===== src/VsFactory/Tls.antt =====
-- modules/gloo/pkg/vsfactory: the certificates of host names (FindTLS of target.go), the copies of
-- virtual services for them (tlsCopy of gloo.go) and the routes to the solver of ACME challenges
-- (acme.go). The caches, net.SplitHostPort and the order in which a map is ranged over are
-- parameters.
use rio.Prelude.{
  Text, str, is_empty, has_suffix, ◌++◌, Bool, not, ◌&&◌, Option, none, some, List, [], ◌∷◌,
  if◌then◌else◌,
}
use rio.Prelude.Int.{ℤ, pos, eqb_ℤ}
use rio.Prelude.Maps.{insert}
use rio.Strconv.{atoi, format_int}
use rio.Api.Domain.{ClusterDomain, PublicDomain}
use rio.VsFactory.Gloo.{VirtualService, Route, Action}
use rio.VsFactory.Build.{prefix_matcher}

-- A list is none where the cache returns an error; `has_public_domain` and `has_secret` say whether
-- a Get returns none. A secret is looked up by its namespace and its name.
pub record Caches : Type 0 where
  pub cluster_domains : Option (List ClusterDomain)
  pub public_domains_by_target : Text → Option (List PublicDomain)
  pub has_public_domain : Text → Bool
  pub has_secret : Text → Text → Bool
  pub split_host_port : Text → Option (Text × Text)
  pub ranged : List (Text × Text) → List (Text × Text)
  pub safe_concat_name : List Text → Text
  pub system_namespace : Text

unfoldable pub format_host : ℤ → ℤ → Text → Text
unfolding format_int
format_host port default_port hostname =
    if eqb_ℤ port (pos 0)
    then []
    else if eqb_ℤ port default_port
    then hostname
    else hostname ++ (str ":" ++ format_int port)

module _ (caches : Caches) where
  -- The host and the port of a host name; the port is 443 if there is none.
  unfoldable pub host_and_port : Text → Text × ℤ
  unfolding atoi
  host_and_port hostname = elim (caches.split_host_port hostname) [
    | none ↦ (hostname, (atoi (str "443")).0)
    | some (host, port) ↦ (host, (atoi port).0)
  ]

  -- A round of the inner loop of FindTLS.
  unfoldable pub add_domain_secret : ClusterDomain → Text → List (Text × Text) → List (Text × Text)
  unfolding host_and_port format_host has_suffix insert
  add_domain_secret domain hostname result =
      let (host, port) = host_and_port hostname in
      let added = insert (format_host port (pos 443) host) domain.assigned_secret_name result in
      if eqb_ℤ port domain.https_port
      then (if has_suffix host domain.name && not (is_empty domain.assigned_secret_name)
          then added
          else result)
      else result

  unfoldable pub add_hostnames : ClusterDomain → List Text → List (Text × Text) → List (Text × Text)
  unfolding add_domain_secret
  add_hostnames domain [] result = result
  add_hostnames domain (hostname ∷ hostnames) result =
      add_hostnames domain hostnames (add_domain_secret domain hostname result)

  unfoldable pub add_domains :
      List ClusterDomain → List Text → List (Text × Text) → List (Text × Text)
  unfolding add_hostnames
  add_domains [] hostnames result = result
  add_domains (domain ∷ domains) hostnames result =
      add_domains domains hostnames (add_hostnames domain hostnames result)

  unfoldable pub add_public_domains : List PublicDomain → List (Text × Text) → List (Text × Text)
  unfolding insert
  add_public_domains [] result = result
  add_public_domains (pd ∷ pds) result = add_public_domains pds (
      if is_empty pd.assigned_secret_name
      then result
      else insert pd.name pd.assigned_secret_name result)

  -- The key of the index of public domains.
  target_key : Text → Text → Text → Text
  target_key namespace app version =
      namespace ++ (str "/" ++ (app ++ (if is_empty version then [] else str "/" ++ version)))

  -- The secrets of host names, by their names.
  unfoldable pub find_tls : Text → Text → Text → List Text → Option (List (Text × Text))
  unfolding add_domains add_public_domains target_key
  find_tls namespace app version hostnames = elim caches.cluster_domains [
    | none ↦ none
    | some domains ↦ elim (caches.public_domains_by_target (target_key namespace app version)) [
      | none ↦ none
      | some pds ↦ some (add_public_domains pds (add_domains domains hostnames []))
    ]
  ]

  unfoldable pub tls_copy : Text → Text → Text → VirtualService → VirtualService
  tls_copy hostname tls_namespace tls_name vs =
      let host : Text = elim (caches.split_host_port hostname) [
        | none ↦ hostname
        | some (h, p) ↦ h
      ] in
      record vs {
        name = caches.safe_concat_name (vs.name ∷ str "tls" ∷ tls_name ∷ []);
        ssl_config = some (record {
          secret = record { name = tls_name; namespace = tls_namespace };
          sni_domains = host ∷ [];
        });
        domains = hostname ∷ [];
      }

  -- The copies for all certificates.
  unfoldable pub tls_copies : List (Text × Text) → VirtualService → List VirtualService
  unfolding tls_copy
  tls_copies [] vs = []
  tls_copies ((hostname, tls) ∷ found) vs =
      tls_copy hostname caches.system_namespace tls vs ∷ tls_copies found vs

  -- The copies for the certificates whose secret there is.
  unfoldable pub tls_copies_with_secret : List (Text × Text) → VirtualService → List VirtualService
  unfolding tls_copy
  tls_copies_with_secret [] vs = []
  tls_copies_with_secret ((hostname, tls) ∷ found) vs =
      let rest = tls_copies_with_secret found vs in
      if caches.has_secret caches.system_namespace tls
      then tls_copy hostname caches.system_namespace tls vs ∷ rest
      else rest

  unfoldable pub acme_route : Route
  acme_route = record {
    matchers = prefix_matcher (str "/.well-known/acme-challenge") ∷ [];
    action = some (
        Action.single (record {
          ref = record { name = str "rio-acme-solver"; namespace = caches.system_namespace };
          port = 8080;
        }));
    options = none;
  }

  -- A route in front for each domain that is public.
  unfoldable pub add_acme_routes : List Text → List Route → List Route
  unfolding acme_route
  add_acme_routes [] routes = routes
  add_acme_routes (domain ∷ domains) routes =
      add_acme_routes domains
        (if caches.has_public_domain domain then acme_route ∷ routes else routes)

  unfoldable pub inject_acme : VirtualService → VirtualService
  unfolding add_acme_routes
  inject_acme vs = record vs { routes = add_acme_routes vs.domains vs.routes }
