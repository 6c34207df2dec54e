-- ===== src/Endpoints/Hosts.antt =====
-- The hosts that a virtual service is made for, from the URLs of the service.
use rio.Prelude.{
  Text, str, ℕ, suc, ◌≡◌, refl, ◌⊎◌, inl, inr, Bool, true, false, ◌&&◌, ◌||◌, leb, All, Bool-cases,
  Option, some, List, [], ◌∷◌, ◌++◌, if◌then◌else◌, arith,
}
use rio.Prelude.Int.{ℤ, pos, eqb_ℤ}
use rio.Prelude.Unique.{Distinct}
use rio.Prelude.Sort.{sort_by, All-sort_by, IsSorted, HasSameMembers}
use rio.Strconv.{format_int}
use rio.Api.Service.{Service}
use rio.Api.Domain.{ClusterDomain, PublicDomain}
use rio.Services.{app_and_version}
use rio.Endpoints.{
  Resolver, is_public, format_endpoint, public_urls, all_public_urls, cluster_urls,
  all_cluster_urls, target_of, endpoints_from_public_domain, endpoints_from_cluster_domain,
  both_endpoints, service_endpoints,
}
use rio.VsFactory.Target.{determine_hosts}
use rio.VsFactory.Target.Hosts.{AreHosts, determine_hosts-IsSorted}

-- The bytes of the name of a host: letters, digits, `-` and `.`.
abbrev is_name_byte : ℕ → Bool
is_name_byte c = (leb 97 c && leb c 122) || ((leb 48 c && leb c 57) || (leb 45 c && leb c 46))

abbrev pub is_name : Text → Bool
is_name [] = true
is_name (c ∷ s) = is_name_byte c && is_name s

abbrev pub IsScheme : Text → Type 0
IsScheme s = (s ≡ str "http") ⊎ (s ≡ str "https")

-- What url.Parse says of the host of a URL without a path.
pub record IsUrlParse (parse_host : Text → Option Text) : Type 0 where
  pub plain :
      (scheme host : Text)
      → IsScheme scheme
      → is_name host ≡ true
      → parse_host (scheme ++ (str "://" ++ host)) ≡ some host
  pub with_port :
      (scheme host : Text) (port : ℕ)
      → IsScheme scheme
      → is_name host ≡ true
      → parse_host (scheme ++ (str "://" ++ (host ++ (str ":" ++ format_int (pos port)))))
        ≡ some (host ++ (str ":" ++ format_int (pos port)))

abbrev pub IsNamed : PublicDomain → Type 0
IsNamed pd = is_name pd.name ≡ true

-- The domain has the name of a host and both of its ports.
pub record IsReachable (cd : ClusterDomain) : Type 0 where
  pub http : ℕ
  pub https : ℕ
  pub named : is_name cd.name ≡ true
  pub http_port : cd.http_port ≡ pos (suc http)
  pub https_port : cd.https_port ≡ pos (suc https)

public_hosts : PublicDomain → List Text
public_hosts pd = pd.name ∷ (if pd.https_supported then pd.name ∷ [] else [])

unfoldable pub all_public_hosts : List PublicDomain → List Text
unfolding public_hosts
all_public_hosts [] = []
all_public_hosts (pd ∷ pds) = public_hosts pd ++ all_public_hosts pds

-- The host, with its port unless that is the default one.
host_of : Text → ℤ → ℤ → Text
host_of host port default_port =
    if eqb_ℤ port default_port then host else host ++ (str ":" ++ format_int port)

cluster_hosts : Text → ClusterDomain → List Text
unfolding host_of
cluster_hosts name cd =
    let host = name ++ (str "." ++ cd.name) in
    (if cd.https_supported then host_of host cd.https_port (pos 443) ∷ [] else [])
    ++ (host_of host cd.http_port (pos 80) ∷ [])

unfoldable pub all_cluster_hosts : Text → List ClusterDomain → List Text
unfolding cluster_hosts
all_cluster_hosts name [] = []
all_cluster_hosts name (cd ∷ cds) = cluster_hosts name cd ++ all_cluster_hosts name cds

is_name-append : (s t : Text) → is_name s ≡ true → is_name t ≡ true → is_name (s ++ t) ≡ true
is_name-append [] t h k = k
is_name-append (c ∷ s) t h k = ground (arith, is_name-append s t)

is_name-below :
    (name domain : Text)
    → is_name name ≡ true
    → is_name domain ≡ true
    → is_name (name ++ (str "." ++ domain)) ≡ true
unfolding str
is_name-below name domain h k = is_name-append name (b'.' ∷ domain) h k

module _ (parse_host : Text → Option Text) (url : IsUrlParse parse_host) where
  AreHosts-append :
      (us hs vs ks : List Text)
      → AreHosts parse_host us hs
      → AreHosts parse_host vs ks
      → AreHosts parse_host (us ++ vs) (hs ++ ks)
  AreHosts-append [] [] vs ks a b = b
  AreHosts-append [] (h ∷ hs) vs ks a b = elim a [ ]
  AreHosts-append (u ∷ us) [] vs ks a b = elim a [ ]
  AreHosts-append (u ∷ us) (h ∷ hs) vs ks (e, a) b = (e, AreHosts-append us hs vs ks a b)

  AreHosts-if :
      (b : Bool) (u h : Text)
      → parse_host u ≡ some h
      → AreHosts parse_host (if b then u ∷ [] else []) (if b then h ∷ [] else [])
  AreHosts-if true u h e = (e, tt)
  AreHosts-if false u h e = tt

  all_public_urls-AreHosts :
      (pds : List PublicDomain)
      → All IsNamed pds
      → AreHosts parse_host (all_public_urls pds) (all_public_hosts pds)
  unfolding all_public_urls public_urls all_public_hosts public_hosts
  all_public_urls-AreHosts [] h = tt
  all_public_urls-AreHosts (pd ∷ pds) (n, h) = (
    url.plain (str "http") pd.name (inl refl) n,
    AreHosts-append _ _ _ _
        (AreHosts-if pd.https_supported _ _ (url.plain (str "https") pd.name (inr refl) n))
        (all_public_urls-AreHosts pds h),
  )

  format_endpoint-host :
      (scheme name domain : Text) (port : ℤ) (n : ℕ) (default_port : ℤ)
      → IsScheme scheme
      → is_name (name ++ (str "." ++ domain)) ≡ true
      → port ≡ pos (suc n)
      → parse_host (format_endpoint scheme port default_port name domain)
        ≡ some (host_of (name ++ (str "." ++ domain)) port default_port)
  unfolding format_endpoint host_of
  format_endpoint-host scheme name domain port n default_port s k e =
      let nonzero : eqb_ℤ port (pos 0) ≡ false = ground (arith, e) in
      elim (Bool-cases (eqb_ℤ port default_port)) [
        | inl same ↦ rw nonzero (rw same (url.plain scheme _ s k))
        | inr other ↦ rw nonzero (rw other (rw e (url.with_port scheme _ (suc n) s k)))
      ]

  all_cluster_urls-AreHosts :
      (name : Text) (cds : List ClusterDomain)
      → is_name name ≡ true
      → All IsReachable cds
      → AreHosts parse_host (all_cluster_urls name cds) (all_cluster_hosts name cds)
  unfolding all_cluster_urls cluster_urls all_cluster_hosts cluster_hosts
  all_cluster_urls-AreHosts name [] n h = tt
  all_cluster_urls-AreHosts name (cd ∷ cds) n (c, h) =
      let below = is_name-below name cd.name n c.named in
      AreHosts-append _ _ _ _
        (AreHosts-append _ _ _ _
          (AreHosts-if cd.https_supported _ _ (
            format_endpoint-host (str "https") name cd.name cd.https_port c.https (pos 443)
              (inr refl) below c.https_port))
          (
            format_endpoint-host (str "http") name cd.name cd.http_port c.http (pos 80) (inl refl)
                below c.http_port,
            tt,
          ))
        (all_cluster_urls-AreHosts name cds n h)

-- What the caches answer for a service with this name below the cluster domains.
pub record IsResolved (r : Resolver) (service : Service) (pds : List PublicDomain)
    (cds : List ClusterDomain) : Type 0 where
  pub public : is_public service ≡ true
  pub by_target :
      r.public_domains_by_target
        (target_of service.namespace (app_and_version service).0 (app_and_version service).1)
      ≡ some pds
  pub clusters : r.cluster_domains ≡ some cds
  pub named : All IsNamed pds
  pub reachable : All IsReachable cds

abbrev pub name_below : Resolver → Service → Text
name_below r service =
    r.safe_concat_name
      ((app_and_version service).0 ∷ (app_and_version service).1 ∷ service.namespace ∷ [])

-- The hosts of a service: its public domains, and its name below the cluster domains.
abbrev pub hosts_of : Resolver → Service → List PublicDomain → List ClusterDomain → List Text
hosts_of r service pds cds =
    all_public_hosts (sort_by (λ pd. pd.name) pds)
    ++ all_cluster_hosts (name_below r service) (sort_by (λ cd. cd.name) cds)

both_endpoints-eq :
    (r : Resolver) (namespace app version name : Text) (pds : List PublicDomain)
    (cds : List ClusterDomain)
    → r.public_domains_by_target (target_of namespace app version) ≡ some pds
    → r.cluster_domains ≡ some cds
    → both_endpoints r namespace app version name
      ≡ some (
          all_public_urls (sort_by (λ pd. pd.name) pds)
          ++ all_cluster_urls name (sort_by (λ cd. cd.name) cds))
unfolding both_endpoints endpoints_from_public_domain endpoints_from_cluster_domain
both_endpoints-eq r namespace app version name pds cds p c =
    rw (p, both_endpoints) (rw (c, both_endpoints) refl)

-- If a service is public, its domains have the names of hosts and its cluster domains have ports,
-- then its endpoints are URLs whose hosts, as the virtual service of its revision gets them, are its
-- public domains and its name below the cluster domains, sorted and without duplicates.
pub service_endpoints-hosts :
    (r : Resolver) (parse_host : Text → Option Text) (service : Service) (pds : List PublicDomain)
    (cds : List ClusterDomain)
    → IsUrlParse parse_host
    → IsResolved r service pds cds
    → is_name (name_below r service) ≡ true
    → (urls : List Text) × (hosts : List Text) × (service_endpoints r service ≡ some urls)
      × (determine_hosts parse_host urls ≡ some hosts)
      × IsSorted hosts
      × Distinct hosts
      × HasSameMembers (hosts_of r service pds cds) hosts
unfolding service_endpoints
service_endpoints-hosts r parse_host service pds cds url h n =
    let urls =
      all_public_urls (sort_by (λ pd. pd.name) pds)
      ++ all_cluster_urls (name_below r service) (sort_by (λ cd. cd.name) cds) in
    let are =
      AreHosts-append parse_host url _ _ _ _
        (all_public_urls-AreHosts parse_host url _ (All-sort_by IsNamed _ pds h.named))
        (all_cluster_urls-AreHosts parse_host url (name_below r service) _ n
          (All-sort_by IsReachable _ cds h.reachable)) in
    let (hosts, found, sorted, distinct, same) = determine_hosts-IsSorted parse_host _ _ are in
    (
      urls,
      hosts,
      rw h.public (both_endpoints-eq r _ _ _ _ pds cds h.by_target h.clusters),
      found,
      sorted,
      distinct,
      same,
    )
