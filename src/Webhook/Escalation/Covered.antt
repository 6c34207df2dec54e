-- ===== src/Webhook/Escalation/Covered.antt =====
-- The permissions of a service against the rules that pkg/webhook computes for them.
use rio.Prelude.{
  Text, is_empty, ◌≡◌, refl, sym, Bool, true, false, Option, none, some, List, [], ◌∷◌, ◌++◌, inl,
  arith, Member, All, All-map, IsSubset, IsSubset-append_left, IsSubset-append_right, IsSubset-refl,
}
use mathlib.Core.Path.{subst}
use rio.Api.Service.{Service, Permission}
use rio.Kube.{PolicyRule, RoleRef}
use rio.Rbac
use rio.Webhook.Convert.{
  policy_rule, perm_to_policy_rule, perms_to_rules, convert_service_to_rule, role_ref,
  convert_security_policy_rule, ◌>>=◌,
}

-- The rules that a permission stands for are among `checked`: its own rule, or those of its role.
abbrev pub IsCovered :
    (RoleRef → Text → Option (List PolicyRule))
    → Bool
    → Text
    → List PolicyRule
    → Permission
    → Type 0
IsCovered role_rules global namespace checked perm =
    (is_empty perm.role ≡ true → Member (policy_rule perm) checked)
    × (is_empty perm.role ≡ false
        → (rules : List PolicyRule) × (role_rules (role_ref perm.role global) namespace
            ≡ some rules)
          × IsSubset rules checked)

append-eq-some :
    (m n : Option (List PolicyRule)) (rules : List PolicyRule)
    → (do first ← m; rest ← n; some (first ++ rest)) ≡ some rules
    → (first : List PolicyRule) × (rest : List PolicyRule) × (m ≡ some first)
      × (n ≡ some rest)
      × (rules ≡ first ++ rest)
append-eq-some none n rules h = cc
append-eq-some (some first) none rules h = cc
append-eq-some (some first) (some rest) rules h = (first, rest, refl, refl, cc)

module _ (role_rules : RoleRef → Text → Option (List PolicyRule)) (global : Bool)
    (namespace : Text) where
  IsCovered-mono :
      (xs ys : List PolicyRule) (perm : Permission)
      → ((rules : List PolicyRule) → IsSubset rules xs → IsSubset rules ys)
      → IsCovered role_rules global namespace xs perm
      → IsCovered role_rules global namespace ys perm
  IsCovered-mono xs ys perm up (own, named) = (
    λ e. (up (policy_rule perm ∷ []) (own e, tt)).0,
    λ e. let (rules, found, sub) = named e in (rules, found, up rules sub),
  )

  -- A single permission's rules are covered by what its conversion returns.
  perm_to_policy_rule-IsCovered :
      (perm : Permission) (rules : List PolicyRule)
      → perm_to_policy_rule role_rules perm global namespace ≡ some rules
      → IsCovered role_rules global namespace rules perm
  unfolding perm_to_policy_rule
  perm_to_policy_rule-IsCovered perm rules h = (
    λ e. let own : rules ≡ policy_rule perm ∷ [] = ground arith in rw own (inl refl),
    λ e. (rules, ground arith, IsSubset-refl rules),
  )

  perms_to_rules-IsCovered :
      (perms : List Permission) (rules : List PolicyRule)
      → perms_to_rules role_rules perms global namespace ≡ some rules
      → All (IsCovered role_rules global namespace rules) perms
  unfolding perms_to_rules
  perms_to_rules-IsCovered [] rules h = tt
  perms_to_rules-IsCovered (perm ∷ perms) rules h =
      let (first, rest, e, e', whole) =
        append-eq-some (perm_to_policy_rule role_rules perm global namespace)
          (perms_to_rules role_rules perms global namespace) rules h in
      subst (λ checked. All (IsCovered role_rules global namespace checked) (perm ∷ perms))
        (sym whole)
        (
          IsCovered-mono first (first ++ rest) perm (λ xs. IsSubset-append_left xs first rest)
              (perm_to_policy_rule-IsCovered perm first e),
          All-map perms
              (λ p.
                IsCovered-mono rest (first ++ rest) p (λ xs. IsSubset-append_right xs first rest))
              (perms_to_rules-IsCovered perms rest e'),
        )

  pub rules_of-IsSubset :
      (perms : List Permission) (checked : List PolicyRule)
      → All (IsCovered role_rules global namespace checked) perms
      → IsSubset (Rbac.rules_of perms) checked
  unfolding Rbac.rules_of policy_rule
  rules_of-IsSubset [] checked h = tt
  rules_of-IsSubset (perm ∷ perms) checked ((own, named), h) =
      ground (arith, rules_of-IsSubset perms checked h)

pair-eq-some :
    (m n : Option (List PolicyRule)) (more a b : List PolicyRule)
    → ◌>>=◌ {B = List PolicyRule × List PolicyRule} m
        (λ global_rules. do rules ← n; some (global_rules, rules ++ more))
      ≡ some (a, b)
    → (rules : List PolicyRule) × (m ≡ some a) × (n ≡ some rules) × (b ≡ rules ++ more)
pair-eq-some none n more a b h = cc
pair-eq-some (some global_rules) none more a b h = cc
pair-eq-some (some global_rules) (some rules) more a b h = (rules, cc, refl, cc)

-- Each permission of the service, of either kind, is covered by the rules of its conversion.
pub convert_service_to_rule-IsCovered :
    (role_rules : RoleRef → Text → Option (List PolicyRule)) (service : Service)
    (global_rules rules : List PolicyRule)
    → convert_service_to_rule role_rules service ≡ some (global_rules, rules)
    → All (IsCovered role_rules true [] global_rules) service.spec.global_permissions
      × All (IsCovered role_rules false service.namespace rules) service.spec.permissions
unfolding convert_service_to_rule
convert_service_to_rule-IsCovered role_rules service global_rules rules h =
    let (own, e, e', whole) =
      pair-eq-some (perms_to_rules role_rules service.spec.global_permissions true [])
        (perms_to_rules role_rules service.spec.permissions false service.namespace)
        (convert_security_policy_rule service) global_rules rules h in
    let covered =
      perms_to_rules-IsCovered role_rules false service.namespace service.spec.permissions own e' in
    (
      perms_to_rules-IsCovered role_rules true [] service.spec.global_permissions global_rules e,
      subst
          (λ checked.
            All (IsCovered role_rules false service.namespace checked) service.spec.permissions)
          (sym whole)
          (All-map service.spec.permissions
            (λ p.
              IsCovered-mono role_rules false service.namespace own
                (own ++ convert_security_policy_rule service) p
                (λ xs. IsSubset-append_left xs own (convert_security_policy_rule service)))
            covered),
    )
