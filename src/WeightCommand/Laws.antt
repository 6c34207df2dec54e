-- ===== src/WeightCommand/Laws.antt =====
-- What promoting a revision leaves of the services of its namespace.
use rio.Prelude.{
  Text, text_eq, text_eq_refl, text_eq_iff, is_cons, ◌≡◌, refl, sym, ap, ◌∙◌, Bool, true, false,
  Option, none, some, List, [], ◌∷◌, map, if◌then◌else◌, arith, All, Member, Bool-cases,
  Option-cases, if-both, inl, inr,
}
use rio.Prelude.Unique.{Distinct}
use rio.Prelude.Int.{ℤ, pos, eq_of_eqb_ℤ}
use rio.Api.Service.{Service, RolloutConfig}
use rio.Services.{app_and_version}
use rio.WeightCommand.{
  Promotion, behind, is_target, is_positive, needs_update, updater, deep_equal,
  promoted_svc_needs_update, list_app_services, update_resource, promote_one, promote_all,
  promote_service,
}

-- A revision with this weight and the rollout configuration of the promotion.
abbrev pub weighted : Promotion → ℤ → Service → Service
weighted p w s = record s {
  spec = record s.spec { rollout_config = p.rollout_config; weight = some w };
}

-- The promoted revision gets the weight; the others of the app that receive traffic get 0.
abbrev pub promoted : Promotion → Service → Service
promoted p s =
    if text_eq (app_and_version s).0 p.app
    then (if is_target p s
        then weighted p p.weight s
        else if is_positive s.status.computed_weight
        then weighted p (pos 0) s
        else s)
    else s

eq_of_deep_equal : (a b : Option RolloutConfig) → deep_equal a b ≡ true → a ≡ b
unfolding deep_equal
eq_of_deep_equal none none h = refl
eq_of_deep_equal (some a) (some b) h =
    ground (
      arith,
      eq_of_eqb_ℤ a.increment b.increment,
      eq_of_eqb_ℤ a.interval_seconds b.interval_seconds,
    )
eq_of_deep_equal none (some b) h = cc
eq_of_deep_equal (some a) none h = cc

module _ (p : Promotion) (s : Service) where
  weighted-same :
      (w : ℤ)
      → some w ≡ s.spec.weight
      → p.rollout_config ≡ s.spec.rollout_config
      → weighted p w s ≡ s
  weighted-same w e k =
      λ i. record s { spec = record s.spec { rollout_config = k i; weight = e i } }

  -- A target that needs no update is as it would be after it.
  unneeded :
      promoted_svc_needs_update s p.weight p.rollout_config ≡ false → weighted p p.weight s ≡ s
  unfolding promoted_svc_needs_update
  unneeded h = elim (Option-cases s.spec.weight) [
    | inl e ↦ absurd (ground (arith, e))
    | inr (w, e) ↦
        weighted-same p.weight (ground (arith, e, eq_of_eqb_ℤ w p.weight))
          (eq_of_deep_equal p.rollout_config s.spec.rollout_config (ground (arith, e)))
  ]

  settled :
      text_eq (app_and_version s).0 p.app ≡ true
      → (if needs_update p s then updater p s s else s) ≡ promoted p s
  unfolding needs_update updater
  settled h = elim (Bool-cases (is_target p s)) [
    | inl t ↦ elim (Bool-cases (promoted_svc_needs_update s p.weight p.rollout_config)) [
      | inl n ↦ rw (h, t, n) refl
      | inr n ↦ rw (h, t, n) (sym (unneeded n))
    ]
    | inr t ↦ elim (Bool-cases (is_positive s.status.computed_weight)) [
      | inl n ↦ rw (h, t, n) refl
      | inr n ↦ rw (h, t, n) refl
    ]
  ]

-- None of the services has the name.
abbrev AreOthers : Text → List Service → Type 0
AreOthers name revs = All (λ (r : Service). text_eq name r.name ≡ false) revs

text_eq-differs : (a b : Text) → ¬ (a ≡ b) → text_eq a b ≡ false
text_eq-differs a b n = elim (Bool-cases (text_eq a b)) [
  | inl e ↦ absurd (n ((text_eq_iff a b).0 e))
  | inr e ↦ e
]

list_app_services-AreOthers :
    (name app : Text) (svcs : List Service)
    → ¬ Member name (map (λ (t : Service). t.name) svcs)
    → AreOthers name (list_app_services app svcs)
unfolding list_app_services
list_app_services-AreOthers name app [] new = tt
list_app_services-AreOthers name app (t ∷ svcs) new =
    if-both (AreOthers name) (text_eq (app_and_version t).0 app) (t ∷ list_app_services app svcs)
      (list_app_services app svcs)
      (
        text_eq-differs name t.name (λ e. new (inl e)),
        list_app_services-AreOthers name app svcs (λ m. new (inr m)),
      )
      (list_app_services-AreOthers name app svcs (λ m. new (inr m)))

module _ (accepts : Service → Bool) (p : Promotion) where
  promote_one-behind :
      (s r : Service) (svcs : List Service)
      → text_eq s.name r.name ≡ false
      → promote_one accepts p r (s ∷ svcs) ≡ behind s (promote_one accepts p r svcs)
  unfolding promote_one update_resource
  promote_one-behind s r svcs h = elim (Bool-cases (needs_update p r)) [
    | inl n ↦ rw (n, h) refl
    | inr n ↦ rw n refl
  ]

  -- A service that is not listed stays as it is.
  promote_all-behind :
      (revs : List Service) (s : Service) (svcs : List Service)
      → AreOthers s.name revs
      → promote_all accepts p revs (s ∷ svcs) ≡ behind s (promote_all accepts p revs svcs)
  unfolding promote_all
  promote_all-behind [] s svcs h = refl
  promote_all-behind (r ∷ revs) s svcs (o, h) =
      rw
        (
          promote_one-behind s r svcs o,
          promote_all-behind revs s (promote_one accepts p r svcs).0 h,
        )
        refl

  module _ (all_accepted : (s : Service) → accepts s ≡ true) where
    promote_one-first :
        (s : Service) (svcs : List Service)
        → promote_one accepts p s (s ∷ svcs)
          ≡ ((if needs_update p s then updater p s s else s) ∷ svcs, true)
    unfolding promote_one update_resource
    promote_one-first s svcs = elim (Bool-cases (needs_update p s)) [
      | inl n ↦ rw (n, text_eq_refl s.name, all_accepted (updater p s s)) refl
      | inr n ↦ rw n refl
    ]

    promote_all-first :
        (s : Service) (revs svcs : List Service)
        → text_eq (app_and_version s).0 p.app ≡ true
        → AreOthers s.name revs
        → promote_all accepts p revs svcs ≡ (map (promoted p) svcs, true)
        → promote_all accepts p (s ∷ revs) (s ∷ svcs) ≡ (promoted p s ∷ map (promoted p) svcs, true)
    unfolding promote_all updater
    promote_all-first s revs svcs mine others rest =
        let others_yet =
          if-both (λ (t : Service). AreOthers t.name revs) (needs_update p s) (updater p s s) s
            others others in
        rw
          (
            promote_one-first s svcs,
            promote_all-behind revs (if needs_update p s then updater p s s else s) svcs others_yet,
            rest,
          )
          (ap (λ (t : Service). (t ∷ map (promoted p) svcs, true)) (settled p s mine))

    promote_all-eq :
        (svcs : List Service)
        → Distinct (map (λ (t : Service). t.name) svcs)
        → promote_all accepts p (list_app_services p.app svcs) svcs ≡ (map (promoted p) svcs, true)
    unfolding promote_all list_app_services
    promote_all-eq [] d = refl
    promote_all-eq (s ∷ svcs) (fresh, d) =
        let others = list_app_services-AreOthers s.name p.app svcs fresh in
        let rest = promote_all-eq svcs d in
        elim (Bool-cases (text_eq (app_and_version s).0 p.app)) [
          | inl mine ↦
              ap (λ revs. promote_all accepts p revs (s ∷ svcs))
                {x = list_app_services p.app (s ∷ svcs)} {y = s ∷ list_app_services p.app svcs}
                (rw mine refl)
              ∙ promote_all-first s (list_app_services p.app svcs) svcs mine others rest
          | inr other ↦
              rw other
                (promote_all-behind (list_app_services p.app svcs) s svcs others ∙ rw rest refl)
        ]

-- If the services of a namespace have different names, the app has one of them, and the API server
-- takes every update, then promoting a revision succeeds: each revision of the app with the version
-- has the weight and the rollout configuration, each other one that received traffic has weight 0
-- and that configuration, and no other service has changed.
pub promote_service-eq :
    (accepts : Service → Bool) (p : Promotion) (svcs : List Service)
    → ((s : Service) → accepts s ≡ true)
    → Distinct (map (λ (t : Service). t.name) svcs)
    → is_cons (list_app_services p.app svcs) ≡ true
    → promote_service accepts p svcs ≡ (map (promoted p) svcs, true)
unfolding promote_service
promote_service-eq accepts p svcs all_accepted d some_listed =
    rw some_listed (promote_all-eq accepts p all_accepted svcs d)
