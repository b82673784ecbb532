-- ===== src/Reproduce/Drift.antt =====
-- internal/cli/reproduce.go: when the check of the environment fails.
use harnesslab.Reproduce.{
  EnvMode, parse_env_mode, Environment, EnvDiff, items, compare_items, compare_env, env_from_json,
  CheckOutcome, mismatches, drift_verdict, report_drift, check_recorded, check_environment,
}
use harnesslab.Shared.{
  String, Bool, true, false, ◌||◌, ◌≡◌, ◌≢◌, ◌↔◌, refl, ap, sym, ◌∙◌, Option, none, some, List, [],
  ◌∷◌, ◌==◌, nat_eq, string_eq, ltb, All, if◌then◌else◌, Bool-cases, inl, inr, arith,
}

-- A dimension that is unknown on a side, or the same on both.
abbrev pub agrees : String × String × String → Bool
agrees (key, a, b) = (a == "" || b == "") || a == b

abbrev pub Agree : String × String × String → Type 0
Agree item = agrees item ≡ true

compare_items-Agree :
    (xs : List (String × String × String)) → (mismatches (compare_items xs) ≡ 0) ↔ All Agree xs
unfolding compare_items
compare_items-Agree [] = (λ _. tt, λ _. refl)
compare_items-Agree ((key, a, b) ∷ xs) =
    let rest = compare_items-Agree xs in
    elim (Bool-cases (a == "" || b == "")) [
      | inl e ↦ rw e (λ h. (refl, rest.0 h), λ k. rest.1 k.1)
      | inr e ↦ elim (Bool-cases (a == b)) [
        | inl same ↦
            rw (e, same) (λ h. (refl, rest.0 (omega (arith, h))), λ k. omega (arith, rest.1 k.1))
        | inr other ↦ rw (e, other) (λ h. absurd (omega (arith, h)), λ k. absurd (cc k.0))
      ]
    ]

verdict_strict :
    (ds : List EnvDiff) → ((drift_verdict EnvMode.strict ds).1 ≡ none) ↔ (mismatches ds ≡ 0)
verdict_strict ds = elim (Bool-cases (ltb 0 (mismatches ds))) [
  | inl e ↦ rw e (λ h. absurd (cc h), λ z. absurd (ground (arith, e, z)))
  | inr e ↦ rw e (λ _. ground (arith, e), λ _. refl)
]

report_strict :
    (ds : List EnvDiff) → ((report_drift EnvMode.strict ds).1 ≡ none) ↔ (mismatches ds ≡ 0)
report_strict [] = (λ _. refl, λ _. refl)
report_strict (d ∷ ds) = verdict_strict (d ∷ ds)

verdict_lenient :
    (mode : EnvMode) (ds : List EnvDiff) → mode ≢ EnvMode.strict → (drift_verdict mode ds).1 ≡ none
verdict_lenient EnvMode.strict ds h = absurd (h refl)
verdict_lenient EnvMode.warn ds h = elim (Bool-cases (ltb 0 (mismatches ds))) [
  | inl e ↦ rw e refl
  | inr e ↦ rw e refl
]
verdict_lenient EnvMode.ignore ds h = elim (Bool-cases (ltb 0 (mismatches ds))) [
  | inl e ↦ rw e refl
  | inr e ↦ rw e refl
]

report_lenient :
    (mode : EnvMode) (ds : List EnvDiff) → mode ≢ EnvMode.strict → (report_drift mode ds).1 ≡ none
report_lenient mode [] h = refl
report_lenient mode (d ∷ ds) h = verdict_lenient mode (d ∷ ds) h

strict_not_ignored :
    (mode : String) → parse_env_mode mode ≡ EnvMode.strict → (mode == "ignore") ≡ false
unfolding parse_env_mode
strict_not_ignored mode = elim (Bool-cases (mode == "strict")) [
  | inl e ↦ λ _. ap (λ s. s == "ignore") ((string_eq.decides mode "strict").0 e)
  | inr e ↦ elim (Bool-cases (mode == "ignore")) [
    | inl i ↦ rw (e, i) (λ h. absurd (cc h))
    | inr i ↦ λ _. i
  ]
]

ignored :
    (decode : String → Option Environment) (text mode : String) (current : Environment)
    → (mode == "ignore") ≡ true
    → check_environment decode text mode current ≡ ([], none)
unfolding check_environment
ignored decode text mode current e = rw e refl

checked :
    (decode : String → Option Environment) (text mode : String) (recorded current : Environment)
    → env_from_json decode text ≡ some recorded
    → (mode == "ignore") ≡ false
    → check_environment decode text mode current
      ≡ report_drift (parse_env_mode mode) (compare_env recorded current)
unfolding check_environment check_recorded
checked decode text mode recorded current h e =
    let out = check_recorded mode (env_from_json decode text) current in
    ap (λ (b : Bool). if b then ([], none) else out) e ∙ ap (λ o. check_recorded mode o current) h

-- If the recorded environment can be decoded, the check in the mode strict succeeds exactly if each of
-- the six dimensions is unknown on a side or the same on both, and in every other mode it succeeds.
pub check_environment-strict :
    (decode : String → Option Environment) (text mode : String) (recorded current : Environment)
    → env_from_json decode text ≡ some recorded
    → (parse_env_mode mode ≡ EnvMode.strict
        → ((check_environment decode text mode current).1 ≡ none)
          ↔ All Agree (items recorded current))
      × (parse_env_mode mode ≢ EnvMode.strict
          → (check_environment decode text mode current).1 ≡ none)
unfolding compare_env
check_environment-strict decode text mode recorded current h = (
  λ s.
      let now = checked decode text mode recorded current h (strict_not_ignored mode s) in
      let diffs = compare_env recorded current in
      let same = ap (λ (o : CheckOutcome). o.1) now ∙ ap (λ m. (report_drift m diffs).1) s in
      let agree = compare_items-Agree (items recorded current) in
      (
        λ z. agree.0 ((report_strict diffs).0 (sym same ∙ z)),
        λ a. same ∙ (report_strict diffs).1 (agree.1 a),
      ),
  λ lenient. elim (Bool-cases (mode == "ignore")) [
    | inl e ↦ ap (λ (o : CheckOutcome). o.1) (ignored decode text mode current e)
    | inr e ↦
        ap (λ (o : CheckOutcome). o.1) (checked decode text mode recorded current h e)
        ∙ report_lenient (parse_env_mode mode) (compare_env recorded current) lenient
  ],
)
