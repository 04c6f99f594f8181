-- ===== src/OpenAgent/Gpu/Identity.antt =====
-- What it means that labels select the pods of the GPU agent (internal/controller/install_agents.go,
-- generateScrapeConfig: checkDuplicate).
use whatap_operator.Prelude.{
  String, Bool, true, false, Option, none, some, [], ◌∷◌, Dict, lookup, any, all, contains,
  is_empty, not, ◌==◌, ◌≡◌, ◌↔◌, refl, sym, ap, ◌∙◌, arith, eq_refl, eq_of_test, and_parts,
  and_intro, Bool-cases, inl, inr,
}
use whatap_operator.OpenAgent.Gpu.{check_duplicate, has_value, identity_keys}
use whatap_operator.OpenAgent.Gpu.Labels.{distinct_keys, unknown}

-- Every label that is asked for is one of the agent's, and one of them identifies a workload.
pub record SelectsAgent (labels match_labels : Dict String) : Type 0 where
  pub matching : (k v : String) → lookup k match_labels ≡ some v → lookup k labels ≡ some v
  pub key : String
  pub value : String
  pub asked : lookup key match_labels ≡ some value
  pub identifying :
      contains
        ("name" ∷ "whatap-gpu" ∷ "app" ∷ "app.kubernetes.io/name" ∷ "app.kubernetes.io/instance"
          ∷ [])
        key
      ≡ true

has_value-some : (o : Option String) (v : String) → has_value o v ≡ true → o ≡ some v
has_value-some none v h = absurd (ground arith)
has_value-some (some w) v h = ap some (eq_of_test w v h)

some-has_value : (o : Option String) (v : String) → o ≡ some v → has_value o v ≡ true
some-has_value o v e = rw e (eq_refl v)

module _ (labels : Dict String) where
  abbrev all_hold : Dict String → Bool
  all_hold d = all (λ (l : String × String). has_value (lookup l.0 labels) l.1) d

  abbrev some_identify : Dict String → Bool
  some_identify d = any (λ (l : String × String). contains identity_keys l.0) d

  lookup-of_all :
      (d : Dict String) (k v : String)
      → all_hold d ≡ true
      → lookup k d ≡ some v
      → lookup k labels ≡ some v
  unfolding lookup
  lookup-of_all [] k v h l = absurd (ground arith)
  lookup-of_all ((j, w) ∷ d) k v h l = elim (Bool-cases (j == k)) [
    | inl e ↦
        let same : some w ≡ some v = rw e at l in
        ap (λ x. lookup x labels) (sym (eq_of_test j k e))
        ∙ has_value-some (lookup j labels) w (and_parts h).0
        ∙ same
    | inr e ↦ lookup-of_all d k v (and_parts h).1 (rw e at l)
  ]

  -- A label of the rest is one of the whole, since the first key is not in the rest.
  lookup-tail :
      (j w : String) (d : Dict String) (k v : String)
      → unknown j d ≡ true
      → lookup k d ≡ some v
      → lookup k ((j, w) ∷ d) ≡ some v
  unfolding lookup
  lookup-tail j w d k v u l = elim (Bool-cases (j == k)) [
    | inl e ↦
        let there : lookup j d ≡ some v = ap (λ x. lookup x d) (eq_of_test j k e) ∙ l in
        let no : unknown j d ≡ false = rw there refl in absurd (ground (arith, no, u))
    | inr e ↦ rw e l
  ]

  all-of_lookup :
      (d : Dict String)
      → distinct_keys d ≡ true
      → ((k v : String) → lookup k d ≡ some v → lookup k labels ≡ some v)
      → all_hold d ≡ true
  unfolding lookup
  all-of_lookup [] h m = refl
  all-of_lookup ((j, w) ∷ d) h m =
      and_intro (some-has_value (lookup j labels) w (m j w (rw (eq_refl j) refl)))
        (all-of_lookup d (and_parts h).1 (λ k v l. m k v (lookup-tail j w d k v (and_parts h).0 l)))

  identifying_label :
      (d : Dict String)
      → some_identify d ≡ true
      → (k : String) × (v : String) × (lookup k d ≡ some v) × (contains identity_keys k ≡ true)
  unfolding lookup
  identifying_label [] h = absurd (ground arith)
  identifying_label ((j, w) ∷ d) h = elim (Bool-cases (contains identity_keys j)) [
    | inl e ↦ (j, w, rw (eq_refl j) refl, e)
    | inr e ↦
        let (k, v, l, i) = identifying_label d (ground (arith, e, h)) in
        elim (Bool-cases (j == k)) [ inl s ↦ (k, w, rw s refl, i) | inr s ↦ (k, v, rw s l, i) ]
  ]

  identify-of_lookup :
      (d : Dict String) (k v : String)
      → lookup k d ≡ some v
      → contains identity_keys k ≡ true
      → some_identify d ≡ true
  unfolding lookup
  identify-of_lookup [] k v l i = absurd (ground arith)
  identify-of_lookup ((j, w) ∷ d) k v l i = elim (Bool-cases (j == k)) [
    | inl e ↦
        let here : contains identity_keys j ≡ true =
          ap (contains identity_keys) (eq_of_test j k e) ∙ i in
        rw here refl
    | inr e ↦
        let rest : some_identify d ≡ true = identify-of_lookup d k v (rw e at l) i in
        ground (arith, rest)
  ]

  not_empty_identify : (d : Dict String) → some_identify d ≡ true → is_empty d ≡ false
  not_empty_identify [] h = absurd (ground arith)
  not_empty_identify (l ∷ d) h = refl

  pub check_duplicate_iff :
      (d : Dict String)
      → distinct_keys d ≡ true
      → (check_duplicate labels d ≡ true) ↔ SelectsAgent labels d
  unfolding check_duplicate
  check_duplicate_iff d h = (
    λ c.
        let held : all_hold d ≡ true = (and_parts (and_parts c).1).0 in
        let (k, v, l, i) = identifying_label d (and_parts (and_parts c).1).1 in
        record {
          matching = λ j w. lookup-of_all d j w held;
          key = k;
          value = v;
          asked = l;
          identifying = i;
        },
    λ s.
        let identified = identify-of_lookup d s.key s.value s.asked s.identifying in
        and_intro (ap not (not_empty_identify d identified))
          (and_intro (all-of_lookup d h s.matching) identified),
  )
