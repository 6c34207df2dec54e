-- ===== src/Endpoints.antt =====
-- modules/service/pkg/endpoints/resolver.go: the URLs of a service, an app and a router, with
-- modules/service/pkg/domains/externaldomain.go. The caches, of which a lookup may fail, and
-- SafeConcatName of package wrangler are parameters.
pub mod Hosts
use rio.Prelude.{
  Text, str, is_empty, any, not, Bool, Option, none, some, List, [], ◌∷◌, ◌++◌, if◌then◌else◌,
}
use rio.Prelude.Int.{ℤ, pos, eqb_ℤ}
use rio.Prelude.Sort.{sort_by}
use rio.Strconv.{format_int}
use rio.Api.Service.{Service, is_exposed}
use rio.Api.Router.{Router}
use rio.Api.Domain.{ClusterDomain, PublicDomain}
use rio.Services.{app_and_version, to_named_containers}

unfoldable pub is_public : Service → Bool
is_public service = any (λ c. any is_exposed c.container.ports) (to_named_containers service)

unfoldable pub is_public_router : Router → Bool
is_public_router router = not router.internal

-- scheme://host, with a port that is not the default one.
unfoldable pub format_endpoint : Text → ℤ → ℤ → Text → Text → Text
format_endpoint scheme port default_port name hostname =
    let host = name ++ (str "." ++ hostname) in
    if eqb_ℤ port (pos 0)
    then []
    else if eqb_ℤ port default_port
    then scheme ++ (str "://" ++ host)
    else scheme ++ (str "://" ++ (host ++ (str ":" ++ format_int port)))

-- The URLs of a public domain.
unfoldable pub public_urls : PublicDomain → List Text
public_urls pd =
    (str "http" ++ (str "://" ++ pd.name))
    ∷ (if pd.https_supported then (str "https" ++ (str "://" ++ pd.name)) ∷ [] else [])

unfoldable pub all_public_urls : List PublicDomain → List Text
all_public_urls [] = []
all_public_urls (pd ∷ pds) = public_urls pd ++ all_public_urls pds

-- The URLs of a name below a cluster domain.
unfoldable pub cluster_urls : Text → ClusterDomain → List Text
cluster_urls name cd =
    (if cd.https_supported
      then format_endpoint (str "https") cd.https_port (pos 443) name cd.name ∷ []
      else [])
    ++ (format_endpoint (str "http") cd.http_port (pos 80) name cd.name ∷ [])

unfoldable pub all_cluster_urls : Text → List ClusterDomain → List Text
all_cluster_urls name [] = []
all_cluster_urls name (cd ∷ cds) = cluster_urls name cd ++ all_cluster_urls name cds

pub record Resolver : Type 0 where
  pub cluster_domains : Option (List ClusterDomain)
  pub public_domains_by_target : Text → Option (List PublicDomain)
  pub safe_concat_name : List Text → Text

unfoldable pub target_of : Text → Text → Text → Text
target_of namespace app version =
    namespace ++ (str "/" ++ (app ++ (if is_empty version then [] else str "/" ++ version)))

module _ (r : Resolver) where
  unfoldable pub endpoints_from_public_domain : Text → Text → Text → Option (List Text)
  endpoints_from_public_domain namespace app version =
      elim (r.public_domains_by_target (target_of namespace app version)) [
        | none ↦ none
        | some pds ↦ some (all_public_urls (sort_by (λ pd. pd.name) pds))
      ]

  unfoldable pub endpoints_from_cluster_domain : Text → Option (List Text)
  endpoints_from_cluster_domain name = elim r.cluster_domains [
    | none ↦ none
    | some cds ↦ some (all_cluster_urls name (sort_by (λ cd. cd.name) cds))
  ]

  -- The URLs of the public domains, then those below the cluster domains.
  unfoldable pub both_endpoints : Text → Text → Text → Text → Option (List Text)
  both_endpoints namespace app version name =
      elim (endpoints_from_public_domain namespace app version) [
        | none ↦ none
        | some public ↦ elim (endpoints_from_cluster_domain name) [
          | none ↦ none
          | some cluster ↦ some (public ++ cluster)
        ]
      ]

  unfoldable pub router_endpoints : Router → Option (List Text)
  router_endpoints router =
      let inside = router.name ++ (str "." ++ router.namespace) in
      if is_public_router router
      then both_endpoints router.namespace router.name []
          (r.safe_concat_name (router.name ∷ router.namespace ∷ []))
      else some (router.name ∷ inside ∷ (inside ++ str ".svc.cluster.local") ∷ [])

  unfoldable pub app_endpoints : Service → Option (List Text)
  app_endpoints service =
      let (app, version) = app_and_version service in
      if is_public service
      then both_endpoints service.namespace app []
          (r.safe_concat_name (app ∷ service.namespace ∷ []))
      else some []

  unfoldable pub service_endpoints : Service → Option (List Text)
  service_endpoints service =
      let (app, version) = app_and_version service in
      if is_public service
      then both_endpoints service.namespace app version
          (r.safe_concat_name (app ∷ version ∷ service.namespace ∷ []))
      else some []
