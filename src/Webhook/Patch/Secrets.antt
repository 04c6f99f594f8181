-- ===== src/Webhook/Patch/Secrets.antt =====
-- The pull secrets of a patched pod (internal/webhook/v2alpha1/process_deployments.go).
use whatap_operator.Prelude.{
  String, false, List, [], ◌∷◌, ◌++◌, foldl, ◌==◌, contains, ◌||◌, ◌≡◌, refl, arith, eq_iff, ◌∙◌,
}
use whatap_operator.Webhook.Patch.{SecretState, secret_step, add_image_pull_secrets}

-- No name twice.
abbrev pub Distinct : List String → Type 0
Distinct [] = Unit
Distinct (s ∷ ss) = (contains ss s ≡ false) × Distinct ss

contains-append :
    (n : String) (xs ys : List String) → contains (xs ++ ys) n ≡ (contains xs n || contains ys n)
contains-append n [] ys = refl
contains-append n (x ∷ xs) ys = ground (arith, contains-append n xs ys)

Distinct-append :
    (xs : List String) (s : String) → Distinct xs → contains xs s ≡ false → Distinct (xs ++ s ∷ [])
Distinct-append [] s d h = (refl, tt)
Distinct-append (x ∷ xs) s d h = (
  ground (arith, contains-append x xs (s ∷ []), eq_iff x s, eq_iff s x),
  Distinct-append xs s d.1 (ground arith),
)

-- The set of the loop and its list hold the same names.
abbrev Agrees : SecretState → Type 0
Agrees st = (n : String) → contains st.existing n ≡ contains st.secrets n

secret_step-Agrees : (st : SecretState) (s : String) → Agrees st → Agrees (secret_step st s)
unfolding secret_step
secret_step-Agrees st s a n = ground (arith, a n, contains-append n st.secrets (s ∷ []))

secret_step-Distinct :
    (st : SecretState) (s : String)
    → Agrees st
    → Distinct st.secrets
    → Distinct (secret_step st s).secrets
unfolding secret_step
secret_step-Distinct st s a d = ground (arith, a s, Distinct-append st.secrets s d)

secret_step-contains :
    (st : SecretState) (s n : String)
    → Agrees st
    → contains (secret_step st s).secrets n ≡ (contains st.secrets n || s == n)
unfolding secret_step
secret_step-contains st s n a =
    ground (arith, a s, eq_iff s n, contains-append n st.secrets (s ∷ []))

fold_contains :
    (ts : List String) (st : SecretState) (n : String)
    → Agrees st
    → contains (foldl secret_step st ts).secrets n ≡ (contains st.secrets n || contains ts n)
fold_contains [] st n a = ground arith
fold_contains (t ∷ ts) st n a =
    fold_contains ts (secret_step st t) n (secret_step-Agrees st t a)
    ∙ ground (arith, secret_step-contains st t n a)

fold-Distinct :
    (ts : List String) (st : SecretState)
    → Agrees st
    → Distinct st.secrets
    → Distinct (foldl secret_step st ts).secrets
fold-Distinct [] st a d = d
fold-Distinct (t ∷ ts) st a d =
    fold-Distinct ts (secret_step st t) (secret_step-Agrees st t a) (secret_step-Distinct st t a d)

-- The pull secrets after an injection are those of the pod and those of the target, and where the
-- pod names each of its secrets once, no secret is named twice, however often the target names it.
pub add_image_pull_secrets_union :
    (secrets target_secrets : List String)
    → Distinct secrets
    → ((n : String)
        → contains (add_image_pull_secrets secrets target_secrets) n
          ≡ (contains secrets n || contains target_secrets n))
      × Distinct (add_image_pull_secrets secrets target_secrets)
unfolding add_image_pull_secrets
add_image_pull_secrets_union secrets target_secrets d = (
  λ n. fold_contains target_secrets _ n (λ m. refl),
  fold-Distinct target_secrets _ (λ m. refl) d,
)
