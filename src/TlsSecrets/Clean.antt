-- ===== src/TlsSecrets/Clean.antt =====
-- That no entry of the collected Secrets has a key that no endpoint refers to
-- (internal/controller/install_agents.go: addTLSSecretsFromEndpoints and collectAllTLSSecrets).
use whatap_operator.Prelude.{
  String, Bool, true, false, Option, none, some, List, [], ◌∷◌, ◌++◌, foldl, Dict, lookup, insert,
  or_default, contains, any, all, is_empty, not, ◌&&◌, ◌||◌, ◌==◌, ◌≡◌, refl, ap, sym, ◌∙◌, arith,
  eq_iff, and_parts, Bool-cases, Option-cases, inl, inr,
}
use whatap_operator.OpenAgent.Types.{
  SecretKeySelector, OpenAgentEndpoint, OpenAgentTargetSpec, WhatapPodMonitor, WhatapServiceMonitor,
}
use whatap_operator.TlsSecrets.{
  keys_of, add, add_endpoint, add_tls_secrets_from_endpoints, add_all, target_endpoints,
  monitor_endpoints, collect_all_tls_secrets,
}
use whatap_operator.TlsSecrets.Collected.{
  contains-append, selects, endpoint_refers, refers, target_refers, monitor_refers,
}

all-insert :
    (p : String × List String → Bool) (m : String) (ks : List String) (d : Dict (List String))
    → all p d ≡ true
    → p (m, ks) ≡ true
    → all p (insert m ks d) ≡ true
unfolding insert
all-insert p m ks [] h q = ground (arith, q)
all-insert p m ks ((j, js) ∷ d) h q = ground (arith, q, all-insert p m ks d)

all-lookup :
    (p : String × List String → Bool) (m : String) (ks : List String) (d : Dict (List String))
    → all p d ≡ true
    → lookup m d ≡ some ks
    → p (m, ks) ≡ true
unfolding lookup
all-lookup p m ks [] h l = absurd (ground arith)
all-lookup p m ks ((j, js) ∷ d) h l = elim (Bool-cases (j == m)) [
  | inl e ↦
      let same : some js ≡ some ks = ground (arith, e, l) in
      ap (λ x. p (m, x)) (sym (ap (λ o. or_default o []) same))
      ∙ ap (λ x. p (x, js)) (sym ((eq_iff j m).0 e))
      ∙ (and_parts h).0
  | inr e ↦
      let rest : lookup m d ≡ some ks = ground (arith, e, l) in
      all-lookup p m ks d (and_parts h).1 rest
]

not_empty_append : (ks : List String) (k : String) → is_empty (ks ++ k ∷ []) ≡ false
not_empty_append [] k = refl
not_empty_append (x ∷ ks) k = refl

not_empty_contains : (ks : List String) (k : String) → contains ks k ≡ true → is_empty ks ≡ false
not_empty_contains [] k h = absurd (ground arith)
not_empty_contains (x ∷ ks) k h = refl

module _ (n k : String) where
  -- An entry that has a key, and not the key `k` of the secret `n`.
  abbrev pub lacks_key : String × List String → Bool
  lacks_key (m, ks) = not (is_empty ks) && not (m == n && contains ks k)

  keys_lack :
      (secrets : Dict (List String)) (m : String)
      → all lacks_key secrets ≡ true
      → (m == n && contains (keys_of m secrets) k) ≡ false
  keys_lack secrets m h = elim (Option-cases (lookup m secrets)) [
    | inl e ↦ rw e (ground arith)
    | inr (ks, e) ↦
        let c : lacks_key (m, ks) ≡ true = all-lookup lacks_key m ks secrets h e in
        rw e (ground (arith, c))
  ]

  all-add :
      (secrets : Dict (List String)) (sel : Option SecretKeySelector)
      → all lacks_key secrets ≡ true
      → selects n k sel ≡ false
      → all lacks_key (add secrets sel) ≡ true
  unfolding add
  all-add secrets none h s = h
  all-add secrets (some sel) h s =
      let keys = keys_of sel.name secrets in
      let free : (sel.name == n && contains keys k) ≡ false = keys_lack secrets sel.name h in
      elim (Bool-cases (contains keys sel.key)) [
        | inl e ↦ rw e (
            all-insert lacks_key sel.name keys secrets h
              (ground (arith, free, not_empty_contains keys sel.key e)))
        | inr e ↦ rw e (
            all-insert lacks_key sel.name (keys ++ sel.key ∷ []) secrets h (
              ground (
                arith,
                free,
                s,
                not_empty_append keys sel.key,
                contains-append keys (sel.key ∷ []) k,
              )))
      ]

  all-add_endpoint :
      (secrets : Dict (List String)) (e : OpenAgentEndpoint)
      → all lacks_key secrets ≡ true
      → endpoint_refers n k e ≡ false
      → all lacks_key (add_endpoint secrets e) ≡ true
  unfolding add_endpoint
  all-add_endpoint secrets e h r = elim (Option-cases e.tls_config) [
    | inl p ↦ rw p h
    | inr (tls, p) ↦
        let none_of : (selects n k tls.ca_secret
              || (selects n k tls.cert_secret || selects n k tls.key_secret))
            ≡ false =
          rw p at r in
        rw p (
          all-add _ tls.key_secret
            (all-add _ tls.cert_secret (all-add secrets tls.ca_secret h (ground arith))
              (ground arith))
            (ground arith))
  ]

  all-add_endpoints :
      (es : List OpenAgentEndpoint) (secrets : Dict (List String))
      → all lacks_key secrets ≡ true
      → refers n k es ≡ false
      → all lacks_key (foldl add_endpoint secrets es) ≡ true
  all-add_endpoints [] secrets h r = h
  all-add_endpoints (e ∷ es) secrets h r =
      all-add_endpoints es (add_endpoint secrets e)
        (all-add_endpoint secrets e h (ground (arith, r))) (ground (arith, r))

  all-add_all {ℓ} :
      {A : Type ℓ} (f : A → List OpenAgentEndpoint) (hs : List A) (secrets : Dict (List String))
      → all lacks_key secrets ≡ true
      → any (λ h. refers n k (f h)) hs ≡ false
      → all lacks_key (add_all f secrets hs) ≡ true
  unfolding add_all add_tls_secrets_from_endpoints
  all-add_all f [] secrets h r = h
  all-add_all f (x ∷ hs) secrets h r =
      all-add_all f hs (foldl add_endpoint secrets (f x))
        (all-add_endpoints (f x) secrets h (ground (arith, r))) (ground (arith, r))

  -- Where no endpoint refers to the key, every entry that is collected lacks it.
  pub all-collect_all_tls_secrets :
      (targets : List OpenAgentTargetSpec) (pods : List WhatapPodMonitor)
      (services : List WhatapServiceMonitor)
      → any (target_refers n k) targets ≡ false
      → any (monitor_refers n k) pods ≡ false
      → any (monitor_refers n k) services ≡ false
      → all lacks_key (collect_all_tls_secrets targets (some pods) (some services)) ≡ true
  unfolding collect_all_tls_secrets
  all-collect_all_tls_secrets targets pods services t p s =
      all-add_all monitor_endpoints services _
        (all-add_all monitor_endpoints pods _ (all-add_all target_endpoints targets [] refl t) p) s
