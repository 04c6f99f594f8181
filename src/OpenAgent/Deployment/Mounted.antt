-- ===== src/OpenAgent/Deployment/Mounted.antt =====
-- The keys of the collected secrets among the mounted files of the OpenAgent's pod
-- (internal/controller/install_agents.go, installOpenAgent).
use whatap_operator.Prelude.{
  String, Bool, true, false, some, List, [], ◌∷◌, Dict, map, lookup, or_default, contains, any,
  ◌&&◌, ◌==◌, ◌⊕◌, ◌≡◌, refl, ap, ◌∙◌, sym, arith, eq_refl, concat_assoc, eq_of_test, test_of_eq,
  and_intro, any_of_mem, Option-cases, Bool-cases, inl, inr,
}
use mathlib.Core.List.{Memᴰ}
use whatap_operator.OpenAgent.Deployment.{
  KeyToPath, key_item, VolumeSource, secret, empty_dir, config_map, Volume, VolumeMount, tls_volume,
  tls_mount, tls_volume_name, open_agent_volumes, open_agent_mounts, OpenAgentPod, open_agent_pod,
  Credentials, OpenAgentSpec,
}
use whatap_operator.TlsSecrets.{keys_of}

-- Whether a pod has the key `k` of the secret `n` at a path: a mount and a volume of one name, and
-- an item of the volume for that key that ends up at the path.
module _ (n k file : String) where
  abbrev pub item_at : String → KeyToPath → Bool
  item_at dir i = i.key == k && (dir ⊕ "/" ⊕ i.path) == file

  abbrev pub source_at : String → VolumeSource → Bool
  source_at dir empty_dir = false
  source_at dir (config_map m) = false
  source_at dir (secret s o items) = s == n && any (item_at dir) items

  abbrev pub volume_at : VolumeMount → Volume → Bool
  volume_at m v = v.name == m.name && source_at m.mount_path v.source

  abbrev pub mounts_file : OpenAgentPod → Bool
  mounts_file pod = any (λ m. any (volume_at m) pod.volumes) pod.volume_mounts

abbrev secret_path_of : String → String → String
secret_path_of n k = "/etc/ssl/certs/" ⊕ n ⊕ "/" ⊕ k

mem-map {ℓ κ} :
    {A : Type ℓ} {B : Type κ} (f : A → B) (x : A) (xs : List A) → Memᴰ x xs → Memᴰ (f x) (map f xs)
mem-map f x [] m = elim m [ ]
mem-map f x (y ∷ ys) (Memᴰ.head e) = Memᴰ.head (ap f e)
mem-map f x (y ∷ ys) (Memᴰ.tail m) = Memᴰ.tail (mem-map f x ys m)

entry_of_lookup :
    (n : String) (ks : List String) (d : Dict (List String)) → lookup n d ≡ some ks → Memᴰ (n, ks) d
unfolding lookup
entry_of_lookup n ks [] h = ground arith
entry_of_lookup n ks ((m, js) ∷ d) h = elim (Bool-cases (m == n)) [
  | inl e ↦
      let same : some js ≡ some ks = ground (arith, e, h) in
      let keys = ap (λ o. or_default o []) same in
      Memᴰ.head (sym (ap (λ x. (x, js)) (eq_of_test m n e) ∙ ap (λ x. (n, x)) keys))
  | inr e ↦
      let rest : lookup n d ≡ some ks = ground (arith, e, h) in
      Memᴰ.tail (entry_of_lookup n ks d rest)
]

any_item :
    (n k : String) (keys : List String)
    → contains keys k ≡ true
    → any (item_at n k (secret_path_of n k) ("/etc/ssl/certs/" ⊕ n)) (map key_item keys) ≡ true
any_item n k [] h = h
any_item n k (j ∷ keys) h = elim (Bool-cases (j == k)) [
  | inl e ↦
      let same = ap (λ x. ("/etc/ssl/certs/" ⊕ n) ⊕ "/" ⊕ x) (eq_of_test j k e) in
      let path = test_of_eq _ _ (same ∙ concat_assoc "/etc/ssl/certs/" n ("/" ⊕ k)) in
      rw (e, path) refl
  | inr e ↦
      let rest : contains keys k ≡ true = ground (arith, e, h) in rw e (any_item n k keys rest)
]

entry_mounted :
    (n k : String) (keys : List String) (cr : Credentials) (spec : OpenAgentSpec)
    (secrets : Dict (List String))
    → Memᴰ (n, keys) secrets
    → contains keys k ≡ true
    → mounts_file n k (secret_path_of n k) (open_agent_pod cr spec secrets) ≡ true
unfolding open_agent_pod open_agent_volumes open_agent_mounts
entry_mounted n k keys cr spec secrets m h =
    let file = secret_path_of n k in
    let volumes = open_agent_volumes secrets in
    let at : volume_at n k file (tls_mount (n, keys)) (tls_volume (n, keys)) ≡ true =
      and_intro (eq_refl (tls_volume_name n)) (and_intro (eq_refl n) (any_item n k keys h)) in
    let served =
      any_of_mem (volume_at n k file (tls_mount (n, keys))) volumes (tls_volume (n, keys))
        (Memᴰ.tail (Memᴰ.tail (mem-map tls_volume (n, keys) secrets m))) at in
    any_of_mem (λ x. any (volume_at n k file x) volumes) (open_agent_mounts secrets)
      (tls_mount (n, keys)) (Memᴰ.tail (Memᴰ.tail (mem-map tls_mount (n, keys) secrets m))) served

pub keys_mounted :
    (n k : String) (cr : Credentials) (spec : OpenAgentSpec) (secrets : Dict (List String))
    → contains (keys_of n secrets) k ≡ true
    → mounts_file n k (secret_path_of n k) (open_agent_pod cr spec secrets) ≡ true
keys_mounted n k cr spec secrets h = elim (Option-cases (lookup n secrets)) [
  | inl e ↦ (let none_there : contains [] k ≡ true = rw e at h in ground arith)
  | inr (keys, e) ↦
      entry_mounted n k keys cr spec secrets (entry_of_lookup n keys secrets e) (rw e at h)
]
