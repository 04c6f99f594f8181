-- ===== src/OpenAgent/Install/Retry.antt =====
-- That the retries of the Deployment end (internal/controller/install_agents.go,
-- installOpenAgent).
use whatap_operator.Prelude.{
  ℕ, suc, ◌+◌, ◌≤◌, String, Bool, Option, none, some, List, [], ◌∷◌, is_some, not, ◌||◌, ◌≡◌, refl,
  arith, Option-cases, inl, inr,
}
use whatap_operator.OpenAgent.Deployment.{OpenAgentPod}
use whatap_operator.OpenAgent.Install.{Request, apply_deployment, sleep, Result, deploy}

abbrev pub attempts : List Request → ℕ
attempts [] = 0
attempts (apply_deployment pod ∷ rs) = suc (attempts rs)
attempts (r ∷ rs) = attempts rs

abbrev pub total_sleep : List Request → ℕ
total_sleep [] = 0
total_sleep (sleep n ∷ rs) = n + total_sleep rs
total_sleep (r ∷ rs) = total_sleep rs

-- Whether one of the first three attempts succeeds.
abbrev pub attempt_succeeds : (ℕ → Option String) → Bool
attempt_succeeds failed =
    not (is_some (failed 0)) || (not (is_some (failed 1)) || not (is_some (failed 2)))

-- With fuel for three rounds or more the loop ends: with no error exactly if one of the first three
-- attempts succeeds, after at most three attempts and waits of at most 300 milliseconds in all.
pub deploy_ends :
    (failed : ℕ → Option String) (pod : OpenAgentPod) (more : ℕ)
    → (r : Result) × ((deploy failed pod (suc (suc (suc more))) 0 ≡ some r)
        × ((not (is_some r.1) ≡ attempt_succeeds failed)
            × ((attempts r.0 ≤ 3) × (total_sleep r.0 ≤ 300))))
unfolding deploy
deploy_ends failed pod more = elim (Option-cases (failed 0)) [
  | inl e0 ↦
      ((apply_deployment pod ∷ [], none), (rw e0 refl, (rw e0 refl, (omega arith, omega arith))))
  | inr (x, e0) ↦ elim (Option-cases (failed 1)) [
    | inl e1 ↦ (
      (apply_deployment pod ∷ sleep 100 ∷ apply_deployment pod ∷ [], none),
      (rw (e0, e1) refl, (rw (e0, e1) refl, (omega arith, omega arith))),
    )
    | inr (y, e1) ↦ elim (Option-cases (failed 2)) [
      | inl e2 ↦ (
        (
          apply_deployment pod
              ∷ sleep 100
              ∷ apply_deployment pod
              ∷ sleep 200
              ∷ apply_deployment pod
              ∷ [],
          none,
        ),
        (rw (e0, e1, e2) refl, (rw (e0, e1, e2) refl, (omega arith, omega arith))),
      )
      | inr (z, e2) ↦ (
        (
          apply_deployment pod
              ∷ sleep 100
              ∷ apply_deployment pod
              ∷ sleep 200
              ∷ apply_deployment pod
              ∷ [],
          some z,
        ),
        (rw (e0, e1, e2) refl, (rw (e0, e1, e2) refl, (omega arith, omega arith))),
      )
    ]
  ]
]
