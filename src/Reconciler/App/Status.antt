-- ===== src/Reconciler/App/Status.antt =====
-- pkg/reconciler/app/app_reconciler.go: the status of an enabled app.
use kubemate.Base.{
  sym, ℕ, ◌+◌, String, ◌≡◌, refl, ap, ◌∙◌, ◌⊎◌, ◌≢◌, inl, inr, true, false, Option, none, some,
  List, [], ◌∷◌, ◌==◌, ◌&&◌, ◌||◌, not, nat_eq, nat_eq_iff, eq_iff, All, arith, Bool-cases,
}
use kubemate.Base.Dict.{Dict}
use kubemate.Reconciler.App.{
  installed, failed, config_required, AppStatus, Kustomization, Condition, ConfigSchema,
  ParameterDefinition, defines, validate_from, validate_configuration, validate_if, progress,
  get_condition, enabled_status,
}

-- The parameter has a name, and a value from the user or by default.
abbrev pub Specified : Option (Dict String) → Option (Dict String) → ParameterDefinition → Type 0
Specified custom defaults p =
    (p.name ≢ "") × ((defines custom p.name || defines defaults p.name) ≡ true)

-- The validation found nothing and left the status alone, or the status tells of a parameter.
data ValidateCases (custom defaults : Option (Dict String)) (ps : List ParameterDefinition)
    (st r : AppStatus) : Type 0 where
  passed : All (Specified custom defaults) ps → r ≡ st → ValidateCases custom defaults ps st r
  stopped :
      (All (Specified custom defaults) ps → ⊥)
      → (r.state ≡ failed) ⊎ (r.state ≡ config_required)
      → ValidateCases custom defaults ps st r

validate_from_cases :
    (i : ℕ) (ps : List ParameterDefinition) (custom defaults : Option (Dict String))
    (st : AppStatus)
    → ValidateCases custom defaults ps st (validate_from i ps custom defaults st)
unfolding validate_from
validate_from_cases i [] custom defaults st = passed tt refl
validate_from_cases i (p ∷ ps) custom defaults st = elim (Bool-cases (p.name == "")) [
  | inl e ↦ rw (e, validate_from) (stopped (λ h. h.0.0 ((eq_iff p.name "").0 e)) (inl refl))
  | inr e ↦ elim (Bool-cases (not (defines defaults p.name) && not (defines custom p.name))) [
    | inl m ↦ rw (e, m, validate_from) (stopped (λ h. absent custom defaults p m h.0.1) (inr refl))
    | inr m ↦
        rw (e, m, validate_from)
          (further custom defaults p ps st e m (validate_from_cases (i + 1) ps custom defaults st))
  ]
]
  where
    absent :
        (custom defaults : Option (Dict String)) (p : ParameterDefinition)
        → (not (defines defaults p.name) && not (defines custom p.name)) ≡ true
        → (defines custom p.name || defines defaults p.name) ≡ true
        → ⊥
    absent custom defaults p m h = ground arith

    further :
        (custom defaults : Option (Dict String)) (p : ParameterDefinition)
        (ps : List ParameterDefinition) (st : AppStatus) {r : AppStatus}
        → (p.name == "") ≡ false
        → (not (defines defaults p.name) && not (defines custom p.name)) ≡ false
        → ValidateCases custom defaults ps st r
        → ValidateCases custom defaults (p ∷ ps) st r
    further custom defaults p ps st e m (passed all same) =
        passed (((λ q. cc ((eq_iff p.name "").1 q)), ground arith), all) same
    further custom defaults p ps st e m (stopped bad r) = stopped (λ h. bad h.1) r

-- Validating a configuration tells exactly whether every parameter of the schema has a name and a value
-- from the user or by default: then the status stays as it is; otherwise it becomes an error or asks
-- for configuration.
pub validate_configuration_cases :
    (cs : ConfigSchema) (custom defaults : Option (Dict String)) (st : AppStatus)
    → (All (Specified custom defaults) cs.params
        × (validate_configuration cs custom defaults st ≡ st))
      ⊎ ((All (Specified custom defaults) cs.params → ⊥)
          × (((validate_configuration cs custom defaults st).state ≡ failed)
              ⊎ ((validate_configuration cs custom defaults st).state ≡ config_required)))
unfolding validate_configuration
validate_configuration_cases cs custom defaults st =
    elim (validate_from_cases 0 cs.params custom defaults st) [
      | passed all same ↦ inl (all, same)
      | stopped bad r ↦ inr (bad, r)
    ]

-- The parameters of the schema, if there is one, are specified.
abbrev pub Configured : Option ConfigSchema → Option (Dict String) → Option (Dict String) → Type 0
Configured none custom defaults = Unit
Configured (some cs) custom defaults = All (Specified custom defaults) cs.params

validate_if-installed :
    (cs : Option ConfigSchema) (custom defaults : Option (Dict String)) (st : AppStatus)
    → (validate_if cs custom defaults st).state ≡ installed
    → (st.state ≡ installed) × Configured cs custom defaults
unfolding validate_if
validate_if-installed none custom defaults st h = (h, tt)
validate_if-installed (some cs) custom defaults st h =
    elim (validate_configuration_cases cs custom defaults st) [
      | inl (all, same) ↦ (ap (λ (s : AppStatus). s.state) (sym same) ∙ h, all)
      | inr (bad, inl f) ↦ cc
      | inr (bad, inr f) ↦ cc
    ]

progress-installed :
    (c : Condition) (k : Kustomization) (cs : Option ConfigSchema)
    (custom defaults : Option (Dict String)) (st : AppStatus)
    → (progress c k cs custom defaults st).state ≢ installed
unfolding progress
progress-installed c k cs custom defaults st h =
    elim (Bool-cases (k.last_applied_revision == k.last_attempted_revision)) [
      | inl e ↦ cc ((validate_if-installed cs custom defaults _ (rw e at h)).0)
      | inr e ↦ cc ((validate_if-installed cs custom defaults _ (rw e at h)).0)
    ]

-- An enabled app is only said to be installed if flux reports the Kustomization as ready in its current
-- generation, and the app's configuration is complete.
pub enabled_status-installed :
    (k : Kustomization) (cs : Option ConfigSchema) (custom defaults : Option (Dict String))
    (st : AppStatus)
    → (enabled_status k cs custom defaults st).state ≡ installed
    → ((get_condition k.conditions "Ready").status ≡ "True")
      × ((get_condition k.conditions "Ready").observed_generation ≡ k.generation)
      × Configured cs custom defaults
unfolding enabled_status
enabled_status-installed k cs custom defaults st h =
    let c = get_condition k.conditions "Ready" in
    elim (Bool-cases (nat_eq c.observed_generation k.generation)) [
      | inr g ↦ cc ((validate_if-installed cs custom defaults _ (rw (g, enabled_status) at h)).0)
      | inl g ↦ elim (Bool-cases (c.status == "True")) [
        | inl t ↦ (
          (eq_iff c.status "True").0 t,
          (nat_eq_iff _ _).0 g,
          (validate_if-installed cs custom defaults _ (rw (g, t, enabled_status) at h)).1,
        )
        | inr t ↦ elim (Bool-cases (c.status == "False")) [
          | inl f ↦
              cc
                ((validate_if-installed cs custom defaults _ (rw (g, t, f, enabled_status) at h)).0)
          | inr f ↦
              absurd
                (progress-installed c k cs custom defaults st (rw (g, t, f, enabled_status) at h))
        ]
      ]
    ]
