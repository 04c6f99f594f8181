-- ===== src/Prelude/Members.antt =====
-- Boolean quantifiers over the members of a list.
use mathlib.Core.Path.{◌≡◌, refl, sym, ap, ◌∙◌}
use mathlib.Core.Logic.{inl, inr}
use mathlib.Core.Bool.{Bool, true}
use mathlib.Core.List.{List, [], ◌∷◌, ◌++◌, map, Memᴰ}
use native.Mathlib.Omega.{arith}
use whatap_operator.Prelude.Tests.{Bool-cases, and_parts}
use whatap_operator.Prelude.Lists.{any, all}

pub any_of_mem {ℓ} :
    {A : Type ℓ} (p : A → Bool) (xs : List A) (x : A) → Memᴰ x xs → p x ≡ true → any p xs ≡ true
any_of_mem p [] x m h = elim m [ ]
any_of_mem p (y ∷ ys) x (Memᴰ.head e) h = rw (sym e) (rw h refl)
any_of_mem p (y ∷ ys) x (Memᴰ.tail m) h = ground (arith, any_of_mem p ys x m h)

pub any_append_left {ℓ} :
    {A : Type ℓ} (p : A → Bool) (xs ys : List A) → any p xs ≡ true → any p (xs ++ ys) ≡ true
any_append_left p [] ys h = absurd (ground arith)
any_append_left p (x ∷ xs) ys h = ground (arith, any_append_left p xs ys)

pub any_append_right {ℓ} :
    {A : Type ℓ} (p : A → Bool) (xs ys : List A) → any p ys ≡ true → any p (xs ++ ys) ≡ true
any_append_right p [] ys h = h
any_append_right p (x ∷ xs) ys h = ground (arith, any_append_right p xs ys h)

pub any_of_mapped {ℓ κ} :
    {A : Type ℓ} {B : Type κ} (p : B → Bool) (f : A → B) (xs : List A) (x : A)
    → Memᴰ x xs
    → p (f x) ≡ true
    → any p (map f xs) ≡ true
any_of_mapped p f [] x m h = elim m [ ]
any_of_mapped p f (y ∷ ys) x (Memᴰ.head e) h = rw (← e) (rw h refl)
any_of_mapped p f (y ∷ ys) x (Memᴰ.tail m) h = ground (arith, any_of_mapped p f ys x m h)

pub mem_of_any {ℓ} :
    {A : Type ℓ} (p : A → Bool) (xs : List A) → any p xs ≡ true → (x : A) × Memᴰ x xs × (p x ≡ true)
mem_of_any p [] h = absurd (ground arith)
mem_of_any p (x ∷ xs) h = elim (Bool-cases (p x)) [
  | inl e ↦ (x, Memᴰ.head refl, e)
  | inr e ↦
      let rest : any p xs ≡ true = rw e at h in
      let (y, m, q) = mem_of_any p xs rest in (y, Memᴰ.tail m, q)
]

pub all_of_mem {ℓ} :
    {A : Type ℓ} (p : A → Bool) (xs : List A) (x : A) → Memᴰ x xs → all p xs ≡ true → p x ≡ true
all_of_mem p [] x m h = elim m [ ]
all_of_mem p (y ∷ ys) x (Memᴰ.head e) h = ap p e ∙ (and_parts h).0
all_of_mem p (y ∷ ys) x (Memᴰ.tail m) h = all_of_mem p ys x m (and_parts h).1
