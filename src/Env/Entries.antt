-- ===== src/Env/Entries.antt =====
-- The entry of a name, and how often a name occurs, in lists of environment variables
-- (internal/webhook/v2alpha1/utils.go).
use whatap_operator.Prelude.{
  String, false, ◌||◌, List, [], ◌∷◌, ◌++◌, or_else, ◌+◌, ◌≡◌, refl, arith, is_some,
}
use whatap_operator.Env.{EnvVar, effective, has_name, count_name}

pub effective-append :
    (n : String) (xs ys : List EnvVar)
    → effective n (xs ++ ys) ≡ or_else (effective n xs) (effective n ys)
unfolding effective
effective-append n [] ys = refl
effective-append n (x ∷ xs) ys = ground (arith, effective-append n xs ys)

pub has_name-append :
    (n : String) (xs ys : List EnvVar) → has_name n (xs ++ ys) ≡ (has_name n xs || has_name n ys)
unfolding has_name
has_name-append n [] ys = refl
has_name-append n (x ∷ xs) ys = ground (arith, has_name-append n xs ys)

pub count_name-append :
    (n : String) (xs ys : List EnvVar) → count_name n (xs ++ ys) ≡ count_name n xs + count_name n ys
unfolding count_name
count_name-append n [] ys = omega arith
count_name-append n (x ∷ xs) ys = ground (arith, count_name-append n xs ys)

-- A name is there exactly if Kubernetes finds an entry.
pub has_name-eq-is_some : (n : String) (xs : List EnvVar) → has_name n xs ≡ is_some (effective n xs)
unfolding effective has_name
has_name-eq-is_some n [] = refl
has_name-eq-is_some n (x ∷ xs) = ground (arith, has_name-eq-is_some n xs)

pub count_name_of_not-has_name :
    (n : String) (xs : List EnvVar) → has_name n xs ≡ false → count_name n xs ≡ 0
unfolding count_name has_name
count_name_of_not-has_name n [] h = refl
count_name_of_not-has_name n (x ∷ xs) h = ground (arith, count_name_of_not-has_name n xs)
