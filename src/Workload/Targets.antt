-- ===== src/Workload/Targets.antt =====
-- The ports of the Kubernetes service of a service lead to ports of its containers.
use rio.Prelude.{
  ◌≡◌, refl, sym, ap, ◌∙◌, true, false, List, [], ◌∷◌, ◌++◌, Bool-cases, Option-cases, none, some,
  if-both, inl, inr, Member, Member-append_left, Member-append_right, All, All-map, All-append,
}
use mathlib.Core.Path.{subst}
use rio.Prelude.Int.{pos, eqb_ℤ}
use rio.Prelude.Unique.{Unique, none_kept, add_new, has}
use rio.Api.Service.{Service, ContainerPort, NamedContainer}
use rio.Kube.{ServicePort}
use rio.Kube.Pod.{KubeContainer, KubeContainerPort}
use rio.Services.{to_named_containers}
use rio.Ports.{
  normalize_container_port, port_key, add_port, add_ports, add_containers, container_ports,
  service_port, service_named_ports, protocol,
}
use rio.Pod.Libraries.{Libraries}
use rio.Pod.Container.{made_port, pod_port, pod_ports, to_container, made_containers, containers}
use rio.Pod.Mounts.{All-of_map}

-- The port is that of a container that has a number.
abbrev IsOf : List NamedContainer → ContainerPort → Type 0
IsOf cs p =
    (c : NamedContainer) × (w : ContainerPort) × Member c cs
    × Member w c.container.ports
    × (p ≡ normalize_container_port w)
    × (eqb_ℤ p.port (pos 0) ≡ false)

module _ (cs : List NamedContainer) where
  add_new-IsOf :
      (p : ContainerPort) (u : Unique ContainerPort)
      → IsOf cs p
      → All (IsOf cs) u.kept
      → All (IsOf cs) (add_new port_key p u).kept
  unfolding add_new
  add_new-IsOf p u n h = elim (Bool-cases (has (port_key p) u.seen)) [
    | inl old ↦ rw old h
    | inr new ↦ rw new (All-append (IsOf cs) u.kept (p ∷ []) h (n, tt))
  ]

  module _ (c : NamedContainer) (i : Member c cs) where
    add_port-IsOf :
        (w : ContainerPort) (u : Unique ContainerPort)
        → Member w c.container.ports
        → All (IsOf cs) u.kept
        → All (IsOf cs) (add_port w u).kept
    unfolding add_port
    add_port-IsOf w u m h = elim (Bool-cases (eqb_ℤ (normalize_container_port w).port (pos 0))) [
      | inl zero_port ↦ rw zero_port h
      | inr other ↦
          rw other (add_new-IsOf (normalize_container_port w) u (c, w, i, m, refl, other) h)
    ]

    add_ports-IsOf :
        (ws : List ContainerPort) (u : Unique ContainerPort)
        → ((w : ContainerPort) → Member w ws → Member w c.container.ports)
        → All (IsOf cs) u.kept
        → All (IsOf cs) (add_ports ws u).kept
    unfolding add_ports
    add_ports-IsOf [] u f h = h
    add_ports-IsOf (w ∷ ws) u f h =
        add_ports-IsOf ws (add_port w u) (λ x m. f x (inr m)) (add_port-IsOf w u (f w (inl refl)) h)

  add_containers-IsOf :
      (ds : List NamedContainer) (u : Unique ContainerPort)
      → ((c : NamedContainer) → Member c ds → Member c cs)
      → All (IsOf cs) u.kept
      → All (IsOf cs) (add_containers ds u).kept
  unfolding add_containers
  add_containers-IsOf [] u f h = h
  add_containers-IsOf (d ∷ ds) u f h =
      add_containers-IsOf ds (add_ports d.container.ports u) (λ c m. f c (inr m))
        (add_ports-IsOf d (f d (inl refl)) d.container.ports u (λ w m. m) h)

container_ports-IsOf :
    (service : Service) → All (IsOf (to_named_containers service)) (container_ports service)
unfolding container_ports
container_ports-IsOf service =
    add_containers-IsOf (to_named_containers service) (to_named_containers service) none_kept
      (λ c m. m) tt

-- One of the containers has the port that this port leads to.
abbrev pub IsTargeted : List KubeContainer → ServicePort → Type 0
IsTargeted ks p =
    (k : KubeContainer) × (q : KubeContainerPort) × Member k ks
    × Member q k.ports
    × (q.container_port ≡ p.target_port)
    × (q.protocol ≡ p.protocol)

module _ (x : ContainerPort) (ws : List ContainerPort) where
  pod_ports-skipped : pod_port x ≡ none → pod_ports (x ∷ ws) ≡ pod_ports ws
  unfolding pod_ports
  pod_ports-skipped e = rw (e, pod_ports) refl

  pod_ports-made :
      (q : KubeContainerPort) → pod_port x ≡ some q → pod_ports (x ∷ ws) ≡ q ∷ pod_ports ws
  unfolding pod_ports
  pod_ports-made q e = rw (e, pod_ports) refl

pod_port-numbered :
    (w : ContainerPort)
    → eqb_ℤ (normalize_container_port w).port (pos 0) ≡ false
    → pod_port w ≡ some (made_port (normalize_container_port w))
unfolding pod_port
pod_port-numbered w n = rw n refl

-- A port with a number is among those of the pod.
pod_ports-Member :
    (w : ContainerPort) (ws : List ContainerPort)
    → eqb_ℤ (normalize_container_port w).port (pos 0) ≡ false
    → Member w ws
    → Member (made_port (normalize_container_port w)) (pod_ports ws)
pod_ports-Member w [] n m = elim m [ ]
pod_ports-Member w (x ∷ ws) n (inl e) =
    rw (pod_ports-made x ws _ (ap pod_port (sym e) ∙ pod_port-numbered w n)) (inl refl)
pod_ports-Member w (x ∷ ws) n (inr m) = elim (Option-cases (pod_port x)) [
  | inl skipped ↦ rw (pod_ports-skipped x ws skipped) (pod_ports-Member w ws n m)
  | inr (q, made) ↦ rw (pod_ports-made x ws q made) (inr (pod_ports-Member w ws n m))
]

module _ (lib : Libraries) where
  -- A container is made for the group that it belongs to.
  made_containers-Member :
      (c : NamedContainer) (cs : List NamedContainer)
      → Member c cs
      → Member (to_container lib c.name c.container) (made_containers lib c.init cs)
  unfolding made_containers
  made_containers-Member c [] m = elim m [ ]
  made_containers-Member c (d ∷ cs) (inl e) = elim (Bool-cases c.init) [
    | inl i ↦ rw (sym e) (simp i (inl refl))
    | inr i ↦ rw (sym e) (simp i (inl refl))
  ]
  made_containers-Member c (d ∷ cs) (inr m) =
      let later = made_containers-Member c cs m in
      let made = to_container lib d.name d.container in
      let here = made_containers lib c.init cs in
      if-both (Member (to_container lib c.name c.container)) d.init _ _
        (if-both (Member (to_container lib c.name c.container)) c.init (made ∷ here) here
          (inr later) later)
        (if-both (Member (to_container lib c.name c.container)) c.init here (made ∷ here) later
          (inr later))

  either_group :
      (c : NamedContainer) (service : Service)
      → Member c (to_named_containers service)
      → Member
          (to_container lib c.name c.container)
          (containers lib service false ++ containers lib service true)
  unfolding containers
  either_group c service m =
      let here = made_containers-Member c (to_named_containers service) m in
      elim (Bool-cases c.init) [
        | inl i ↦ Member-append_right _ (containers lib service false) _ (
            subst
              (λ b.
                Member (to_container lib c.name c.container)
                  (made_containers lib b (to_named_containers service)))
              i here)
        | inr i ↦ Member-append_left _ _ _ (
            subst
              (λ b.
                Member (to_container lib c.name c.container)
                  (made_containers lib b (to_named_containers service)))
              i here)
      ]

  port-IsTargeted :
      (service : Service) (p : ContainerPort)
      → IsOf (to_named_containers service) p
      → IsTargeted
          (containers lib service false ++ containers lib service true)
          (service_port lib.to_lower p)
  unfolding to_container service_port
  port-IsTargeted service p (c, w, i, m, e, n) = (
    to_container lib c.name c.container,
    made_port (normalize_container_port w),
    either_group c service i,
    pod_ports-Member w c.container.ports (subst (λ x. eqb_ℤ x.port (pos 0) ≡ false) e n) m,
    ap (λ x. x.target_port) (sym e),
    ap (λ x. protocol x.protocol) (sym e),
  )

  -- Every port of the Kubernetes service that comes from a port of the service leads to a port of
  -- one of the containers of the pod, with the same protocol.
  pub service_named_ports-AreTargeted :
      (service : Service)
      → All
          (IsTargeted (containers lib service false ++ containers lib service true))
          (service_named_ports lib.to_lower service)
  unfolding service_named_ports
  service_named_ports-AreTargeted service =
      All-of_map (IsTargeted (containers lib service false ++ containers lib service true))
        (service_port lib.to_lower) (container_ports service)
        (All-map (container_ports service) (port-IsTargeted service) (container_ports-IsOf service))
