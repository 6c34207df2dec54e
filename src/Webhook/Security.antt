-- ===== src/Webhook/Security.antt =====
-- The security settings of a service in pkg/webhook: which of them the webhook asks for.
use rio.Prelude.{
  Text, str, is_empty, not, ◌≡◌, ◌⊎◌, ◌↔◌, refl, ap, Bool, true, false, some, List, [], ◌∷◌, ◌++◌,
  map, sym, inl, inr, any, Member, Member-append_left, Member-append_right, arith, is_some,
  Bool-cases, Option-cases,
}
use mathlib.Core.Path.{subst}
use rio.Prelude.Prefixed.{Member-map, Member-of_map}
use rio.Api.Service.{
  Service, Container, ContainerPort, NamedContainer, Volume, ContainerSecurityContext,
}
use rio.Kube.{PolicyRule}
use rio.Webhook.Convert.{
  new_policy_rule, uses_host_port, uses_host_path, uses_privileged, containers_of, rule_for,
  convert_security_policy_rule,
}

any-Member :
    {A : Type 0} (p : A → Bool) (a : A) (xs : List A) → Member a xs → p a ≡ true → any p xs ≡ true
unfolding any
any-Member p a [] m h = elim m [ ]
any-Member p a (x ∷ xs) (inl e) h = rw (← e, h)
any-Member p a (x ∷ xs) (inr m) h = ground (arith, any-Member p a xs m h)

append_cases :
    {A : Type 0} (a : A) (xs ys : List A) → Member a (xs ++ ys) → Member a xs ⊎ Member a ys
append_cases a [] ys m = inr m
append_cases a (x ∷ xs) ys (inl e) = inl (inl e)
append_cases a (x ∷ xs) ys (inr m) = elim (append_cases a xs ys m) [
  | inl before ↦ inl (inr before)
  | inr after ↦ inr after
]

five_cases :
    {A : Type 0} (a : A) (v w x y z : List A)
    → Member a (v ++ w ++ x ++ y ++ z)
    → Member a v ⊎ (Member a w ⊎ (Member a x ⊎ (Member a y ⊎ Member a z)))
five_cases a v w x y z m = elim (append_cases a (v ++ w ++ x ++ y) z m) [
  | inr l ↦ inr (inr (inr (inr l)))
  | inl m4 ↦ elim (append_cases a (v ++ w ++ x) y m4) [
    | inr l ↦ inr (inr (inr (inl l)))
    | inl m3 ↦ elim (append_cases a (v ++ w) x m3) [
      | inr l ↦ inr (inr (inl l))
      | inl m2 ↦ elim (append_cases a v w m2) [ inl l ↦ inl l | inr l ↦ inr (inl l) ]
    ]
  ]
]

Member-of_any :
    {A : Type 0} (p : A → Bool) (xs : List A)
    → any p xs ≡ true
    → (a : A) × Member a xs × (p a ≡ true)
unfolding any
Member-of_any p [] h = absurd (cc h)
Member-of_any p (x ∷ xs) h = elim (Bool-cases (p x)) [
  | inl e ↦ (x, inl refl, e)
  | inr e ↦ let (a, m, k) = Member-of_any p xs (ground (arith, e)) in (a, inr m, k)
]

-- A container of the service, its own or a sidecar's.
abbrev pub IsContainer : Service → Container → Type 0
IsContainer service c =
    (c ≡ service.spec.container)
    ⊎ ((s : NamedContainer) × Member s service.spec.sidecars × (c ≡ s.container))

-- What of a service needs a right, and the verb of the right.
pub data Needs (service : Service) (verb : Text) : Type 0 where
  host_port :
      (c : Container) (p : ContainerPort)
      → verb ≡ str "rio-hostport"
      → IsContainer service c
      → Member p c.ports
      → p.host_port ≡ true
      → Needs service verb
  host_network :
      verb ≡ str "rio-hostnetwork" → service.spec.host_network ≡ true → Needs service verb
  host_path :
      (c : Container) (v : Volume)
      → verb ≡ str "rio-hostpath"
      → IsContainer service c
      → Member v c.volumes
      → is_empty v.host_path ≡ false
      → Needs service verb
  privileged :
      (context : ContainerSecurityContext)
      → verb ≡ str "rio-privileged"
      → service.spec.container.security_context ≡ some context
      → context.privileged ≡ some true
      → Needs service verb
  mesh :
      (on : Bool)
      → verb ≡ str "rio-servicemesh"
      → service.spec.service_mesh ≡ some on
      → Needs service verb

-- The rule for `verb` is among those that the webhook checks.
abbrev pub IsAsked : Service → Text → Type 0
IsAsked service verb =
    Member (record (new_policy_rule service) { verbs = verb ∷ [] })
      (convert_security_policy_rule service)

module _ (service : Service) where
  containers_of-Member : (c : Container) → IsContainer service c → Member c (containers_of service)
  unfolding containers_of
  containers_of-Member c (inl e) = inl e
  containers_of-Member c (inr (s, m, e)) = inr (
      subst (λ d. Member d (map (λ (n : NamedContainer). n.container) service.spec.sidecars))
        (sym e) (Member-map (λ (n : NamedContainer). n.container) s service.spec.sidecars m))

  IsContainer-of_Member : (c : Container) → Member c (containers_of service) → IsContainer service c
  unfolding containers_of
  IsContainer-of_Member c (inl e) = inl e
  IsContainer-of_Member c (inr m) =
      inr (Member-of_map (λ (n : NamedContainer). n.container) c service.spec.sidecars m)

  -- A rule among those for one setting is for its verb, and the setting is used.
  abbrev IsFor : Bool → Text → Text → Type 0
  IsFor used verb wanted = (used ≡ true) × (wanted ≡ verb)

  rule_for-Member :
      (used : Bool) (verb wanted : Text)
      → IsFor used verb wanted
      → Member
          (record (new_policy_rule service) { verbs = wanted ∷ [] })
          (rule_for service used verb)
  rule_for-Member used verb wanted (h, e) = rw (h, e) (inl refl)

  IsFor-of_Member :
      (used : Bool) (verb wanted : Text)
      → Member
          (record (new_policy_rule service) { verbs = wanted ∷ [] })
          (rule_for service used verb)
      → IsFor used verb wanted
  IsFor-of_Member true verb wanted (inl e) = (refl, cc (ap (λ (r : PolicyRule). r.verbs) e))
  IsFor-of_Member true verb wanted (inr m) = absurd m
  IsFor-of_Member false verb wanted m = absurd m

  Needs-host_port :
      (verb : Text)
      → IsFor (any uses_host_port (containers_of service)) (str "rio-hostport") verb
      → Needs service verb
  unfolding uses_host_port
  Needs-host_port verb (h, e) =
      let (c, m, used) = Member-of_any uses_host_port (containers_of service) h in
      let (p, at, on) = Member-of_any (λ (p : ContainerPort). p.host_port) c.ports used in
      host_port c p e (IsContainer-of_Member c m) at on

  Needs-host_path :
      (verb : Text)
      → IsFor (any uses_host_path (containers_of service)) (str "rio-hostpath") verb
      → Needs service verb
  unfolding uses_host_path
  Needs-host_path verb (h, e) =
      let (c, m, used) = Member-of_any uses_host_path (containers_of service) h in
      let (v, at, on) = Member-of_any (λ (v : Volume). not (is_empty v.host_path)) c.volumes used in
      host_path c v e (IsContainer-of_Member c m) at (ground (arith, on))

  Needs-privileged :
      (verb : Text)
      → IsFor (uses_privileged service.spec.container) (str "rio-privileged") verb
      → Needs service verb
  unfolding uses_privileged
  Needs-privileged verb (h, e) = elim (Option-cases service.spec.container.security_context) [
    | inl unset ↦ absurd (ground (arith, unset))
    | inr (context, set) ↦ privileged context e set (ground (arith, set))
  ]

  Needs-mesh :
      (verb : Text)
      → IsFor (is_some service.spec.service_mesh) (str "rio-servicemesh") verb
      → Needs service verb
  Needs-mesh verb (h, e) = elim (Option-cases service.spec.service_mesh) [
    | inl unset ↦ absurd (ground (arith, unset))
    | inr (on, set) ↦ mesh on e set
  ]

  Needs-of_IsAsked : (verb : Text) → IsAsked service verb → Needs service verb
  unfolding convert_security_policy_rule
  Needs-of_IsAsked verb asked =
      let port = any uses_host_port (containers_of service) in
      let network = service.spec.host_network in
      let path = any uses_host_path (containers_of service) in
      let own = uses_privileged service.spec.container in
      elim (five_cases (record (new_policy_rule service) { verbs = verb ∷ [] })
        (rule_for service port (str "rio-hostport"))
        (rule_for service network (str "rio-hostnetwork"))
        (rule_for service path (str "rio-hostpath")) (rule_for service own (str "rio-privileged"))
        (rule_for service (is_some service.spec.service_mesh) (str "rio-servicemesh")) asked) [
          | inl m ↦ Needs-host_port verb (IsFor-of_Member port _ verb m)
          | inr (inl m) ↦ let (on, e) = IsFor-of_Member network _ verb m in host_network e on
          | inr (inr (inl m)) ↦ Needs-host_path verb (IsFor-of_Member path _ verb m)
          | inr (inr (inr (inl m))) ↦ Needs-privileged verb (IsFor-of_Member own _ verb m)
          | inr (inr (inr (inr m))) ↦
              Needs-mesh verb (IsFor-of_Member (is_some service.spec.service_mesh) _ verb m)
        ]

  IsAsked-of_Needs : (verb : Text) → Needs service verb → IsAsked service verb
  unfolding convert_security_policy_rule uses_host_port uses_host_path uses_privileged
  IsAsked-of_Needs verb (host_port c p e is m on) =
      let used = any-Member (λ (p : ContainerPort). p.host_port) p c.ports m on in
      search (
        rule_for-Member (any uses_host_port (containers_of service)) (str "rio-hostport") verb (
          any-Member uses_host_port c (containers_of service) (containers_of-Member c is) used,
          e,
        ),
        Member-append_left,
      )
  IsAsked-of_Needs verb (host_network e on) = search (
    rule_for-Member service.spec.host_network (str "rio-hostnetwork") verb (on, e),
    Member-append_left,
    Member-append_right,
  )
  IsAsked-of_Needs verb (host_path c v e is m on) =
      let used =
        any-Member (λ (v : Volume). not (is_empty v.host_path)) v c.volumes m
          (ground (arith, on)) in
      search (
        rule_for-Member (any uses_host_path (containers_of service)) (str "rio-hostpath") verb (
          any-Member uses_host_path c (containers_of service) (containers_of-Member c is) used,
          e,
        ),
        Member-append_left,
        Member-append_right,
      )
  IsAsked-of_Needs verb (privileged context e set on) = search (
    rule_for-Member (uses_privileged service.spec.container) (str "rio-privileged") verb
        (ground (arith, set, on), e),
    Member-append_left,
    Member-append_right,
  )
  IsAsked-of_Needs verb (mesh on e set) = search (
    rule_for-Member (is_some service.spec.service_mesh) (str "rio-servicemesh") verb
        (ground (arith, set), e),
    Member-append_right,
  )

-- The webhook asks for a right of a service's author exactly if the service needs it: for a port of
-- the host or a path of the host of any container, its own or a sidecar's, for the host network, for
-- a privileged container of its own, and for a mesh setting, on or off.
pub security-IsAsked : (service : Service) (verb : Text) → IsAsked service verb ↔ Needs service verb
security-IsAsked service verb = (Needs-of_IsAsked service verb, IsAsked-of_Needs service verb)

-- The service with one more sidecar.
abbrev pub with_sidecar : Service → NamedContainer → Service
with_sidecar service c = record service {
  spec = record service.spec { sidecars = c ∷ service.spec.sidecars };
}

-- A sidecar without host ports and host paths adds nothing to what the webhook checks of a
-- service's security, whether it is privileged or not.
pub sidecar_unchecked :
    (service : Service) (c : NamedContainer)
    → uses_host_port c.container ≡ false
    → uses_host_path c.container ≡ false
    → convert_security_policy_rule (with_sidecar service c) ≡ convert_security_policy_rule service
unfolding convert_security_policy_rule containers_of any new_policy_rule
sidecar_unchecked service c port path = rw (port, path)
