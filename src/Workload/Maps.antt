-- ===== src/Workload/Maps.antt =====
-- Maps of containers by name, and the filling in of maps (internal/controller/install_agents.go).
use whatap_operator.Prelude.{
  String, Option, none, some, List, [], ◌∷◌, ◌++◌, foldl, Dict, if◌then◌else◌, lookup, insert,
  lookup-insert, is_some, or_else, ◌==◌, ◌≡◌, refl, sym, ap, ◌∙◌, arith, Option-cases, Bool-cases,
  inl, inr, eq_iff, All,
}
use whatap_operator.Workload.{
  Container, Resources, fill_missing, set_default_resource, apply_container_defaults, remove,
  by_name,
}

pub lookup-fill_missing :
    {V : Type 0} (k : String) (m defaults : Dict V)
    → lookup k (fill_missing m defaults) ≡ or_else (lookup k m) (lookup k defaults)
unfolding fill_missing lookup
lookup-fill_missing k m [] = elim (Option-cases (lookup k m)) [ inl e ↦ rw e | inr (v, e) ↦ rw e ]
lookup-fill_missing k m ((j, v) ∷ defaults) = elim (Bool-cases (is_some (lookup j m))) [
  | inl e ↦ rw e (
      ground (
        arith,
        e,
        eq_iff j k,
        ap (λ x. lookup x m) ((eq_iff j k).0 _),
        lookup-fill_missing k m defaults,
      ))
  | inr e ↦ rw e (
      ground
        (arith, eq_iff j k, lookup-insert j k v m, lookup-fill_missing k (insert j v m) defaults))
]

-- Default resources fill in what is missing: under every key a quantity that the user gives stays,
-- and the default counts only where there is none.
pub set_default_resource_fills :
    (res : Resources) (def_req def_lim : Dict String) (k : String)
    → (lookup k (set_default_resource res def_req def_lim).requests
        ≡ or_else (lookup k res.requests) (lookup k def_req))
      × (lookup k (set_default_resource res def_req def_lim).limits
          ≡ or_else (lookup k res.limits) (lookup k def_lim))
unfolding set_default_resource
set_default_resource_fills res def_req def_lim k =
    (lookup-fill_missing k res.requests def_req, lookup-fill_missing k res.limits def_lim)

pub lookup-remove :
    {V : Type 0} (k n : String) (m : Dict V)
    → lookup n (remove k m) ≡ (if k == n then none else lookup n m)
unfolding remove lookup
lookup-remove k n [] = ground arith
lookup-remove k n ((j, v) ∷ m) =
    ground (arith, eq_iff k n, eq_iff j k, eq_iff j n, lookup-remove k n m)

-- The first container of a name.
unfoldable pub find_container : String → List Container → Option Container
find_container n [] = none
find_container n (c ∷ cs) = if c.name == n then some c else find_container n cs

pub find_container-append :
    (n : String) (xs ys : List Container)
    → find_container n (xs ++ ys) ≡ or_else (find_container n xs) (find_container n ys)
unfolding find_container
find_container-append n [] ys = refl
find_container-append n (x ∷ xs) ys = ground (arith, find_container-append n xs ys)

-- A map of containers by their own names.
abbrev pub IsKeyed : Dict Container → Type 0
IsKeyed = All (λ (e : String × Container). e.1.name ≡ e.0)

pub IsKeyed-insert : (c : Container) (m : Dict Container) → IsKeyed m → IsKeyed (insert c.name c m)
unfolding insert
IsKeyed-insert c [] h = (refl, tt)
IsKeyed-insert c ((k, d) ∷ m) h = elim (Bool-cases (k == c.name)) [
  | inl e ↦ rw e (refl, h.1)
  | inr e ↦ rw e (h.0, IsKeyed-insert c m h.1)
]

pub IsKeyed-remove : (k : String) (m : Dict Container) → IsKeyed m → IsKeyed (remove k m)
unfolding remove
IsKeyed-remove k [] h = tt
IsKeyed-remove k ((j, d) ∷ m) h = elim (Bool-cases (j == k)) [
  | inl e ↦ rw e (IsKeyed-remove k m h.1)
  | inr e ↦ rw e (h.0, IsKeyed-remove k m h.1)
]

pub name_of_lookup :
    (n : String) (m : Dict Container) (c : Container) → IsKeyed m → lookup n m ≡ some c → c.name ≡ n
unfolding lookup
name_of_lookup n [] c h e = absurd (ground arith)
name_of_lookup n ((k, d) ∷ m) c h e = ground (arith, eq_iff k n, h.0, name_of_lookup n m c h.1)

-- No key twice, as in every map of Go.
abbrev pub IsDistinct : Dict Container → Type 0
IsDistinct [] = Unit
IsDistinct ((k, c) ∷ m) = (lookup k m ≡ none) × IsDistinct m

pub IsDistinct-insert :
    (k : String) (c : Container) (m : Dict Container) → IsDistinct m → IsDistinct (insert k c m)
unfolding insert lookup
IsDistinct-insert k c [] h = (refl, tt)
IsDistinct-insert k c ((j, d) ∷ m) h = elim (Bool-cases (j == k)) [
  | inl e ↦ rw e (ap (λ x. lookup x m) (sym ((eq_iff j k).0 e)) ∙ h.0, h.1)
  | inr e ↦ rw e (
    lookup-insert k j c m ∙ ground (arith, h.0, eq_iff j k, eq_iff k j),
    IsDistinct-insert k c m h.1,
  )
]

pub IsDistinct-remove : (k : String) (m : Dict Container) → IsDistinct m → IsDistinct (remove k m)
unfolding remove
IsDistinct-remove k [] h = tt
IsDistinct-remove k ((j, d) ∷ m) h = elim (Bool-cases (j == k)) [
  | inl e ↦ rw e (IsDistinct-remove k m h.1)
  | inr e ↦ rw e (lookup-remove k j m ∙ ground (arith, h.0), IsDistinct-remove k m h.1)
]

abbrev pub IsGoMap : Dict Container → Type 0
IsGoMap m = IsKeyed m × IsDistinct m

pub IsGoMap-fold :
    (cs : List Container) (m : Dict Container)
    → IsGoMap m
    → IsGoMap (foldl (λ m c. insert c.name (apply_container_defaults c) m) m cs)
unfolding apply_container_defaults
IsGoMap-fold [] m h = h
IsGoMap-fold (c ∷ cs) m h =
    let d = apply_container_defaults c in
    IsGoMap-fold cs (insert c.name d m) (IsKeyed-insert d m h.0, IsDistinct-insert c.name d m h.1)

pub IsGoMap-by_name : (cs : List Container) → IsGoMap (by_name cs)
unfolding by_name
IsGoMap-by_name cs = IsGoMap-fold cs [] (tt, tt)

-- A range over a map visits each entry once, in some order.
abbrev pub IsRange : (Dict Container → List Container) → Type 0
IsRange order =
    (m : Dict Container) → IsGoMap m → (n : String) → find_container n (order m) ≡ lookup n m
