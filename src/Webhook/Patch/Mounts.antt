-- ===== src/Webhook/Patch/Mounts.antt =====
-- Volumes with different names, and mounts that name a volume
-- (internal/webhook/v2alpha1/process_deployments.go: the lists that patchPodTemplateSpec extends).
use whatap_operator.Prelude.{
  String, true, false, List, [], ◌∷◌, ◌++◌, ◌||◌, ◌≡◌, refl, arith, eq_iff, All, All-append, ◌∙◌,
}
use whatap_operator.Webhook.Types.{VolumeMount, Container, Volume}
use whatap_operator.Webhook.Patch.{volume_exists, update_first, add_mount}

-- No two volumes of a name.
abbrev pub Unique : List Volume → Type 0
Unique [] = Unit
Unique (v ∷ vs) = (volume_exists v.name vs ≡ false) × Unique vs

-- Every mount of a container names a volume of the list.
abbrev pub Mounted : List Volume → Container → Type 0
Mounted volumes c = All (λ (m : VolumeMount). volume_exists m.name volumes ≡ true) c.volume_mounts

abbrev pub Extends : List Volume → List Volume → Type 0
Extends vs ws = (n : String) → volume_exists n vs ≡ true → volume_exists n ws ≡ true

pub volume_exists-append :
    (n : String) (vs ws : List Volume)
    → volume_exists n (vs ++ ws) ≡ (volume_exists n vs || volume_exists n ws)
unfolding volume_exists
volume_exists-append n [] ws = refl
volume_exists-append n (v ∷ vs) ws = ground (arith, volume_exists-append n vs ws)

pub Unique-append :
    (vs : List Volume) (w : Volume)
    → Unique vs
    → volume_exists w.name vs ≡ false
    → Unique (vs ++ w ∷ [])
unfolding volume_exists
Unique-append [] w u h = (refl, tt)
Unique-append (v ∷ vs) w u h = (
  ground
      (arith, volume_exists-append v.name vs (w ∷ []), eq_iff v.name w.name, eq_iff w.name v.name),
  Unique-append vs w u.1 (ground arith),
)

pub Extends-append : (vs ws : List Volume) → Extends vs (vs ++ ws)
Extends-append vs ws n h = volume_exists-append n vs ws ∙ rw h

pub Extends-append_both : (vs ws xs : List Volume) → Extends vs ws → Extends (vs ++ xs) (ws ++ xs)
Extends-append_both vs ws xs e n h =
    ground (arith, volume_exists-append n vs xs, volume_exists-append n ws xs, e n)

All-map_same {ℓ κ} :
    {A : Type ℓ} (P Q : A → Type κ) → ((a : A) → P a → Q a) → (xs : List A) → All P xs → All Q xs
All-map_same P Q f [] h = tt
All-map_same P Q f (x ∷ xs) h = (f x h.0, All-map_same P Q f xs h.1)

Mounted-Extends :
    (vs ws : List Volume) → Extends vs ws → (c : Container) → Mounted vs c → Mounted ws c
Mounted-Extends vs ws e c =
    All-map_same (λ (m : VolumeMount). volume_exists m.name vs ≡ true)
      (λ (m : VolumeMount). volume_exists m.name ws ≡ true) (λ m. e m.name) c.volume_mounts

pub All-Mounted-Extends :
    (vs ws : List Volume)
    → Extends vs ws
    → (cs : List Container) → All (Mounted vs) cs
    → All (Mounted ws) cs
All-Mounted-Extends vs ws e = All-map_same (Mounted vs) (Mounted ws) (Mounted-Extends vs ws e)

-- A mount of a volume that is there.
pub Mounted-add_mount :
    (vs : List Volume) (m : VolumeMount) (c : Container)
    → volume_exists m.name vs ≡ true
    → Mounted vs c
    → Mounted vs (add_mount m c)
Mounted-add_mount vs m c h mc = All-append _ c.volume_mounts (m ∷ []) mc (h, tt)

pub update_first-Mounted :
    (vs : List Volume) (f : Container → Container)
    → ((c : Container) → Mounted vs c → Mounted vs (f c))
    → (cs : List Container) → All (Mounted vs) cs
    → All (Mounted vs) (update_first f cs)
update_first-Mounted vs f k [] h = tt
update_first-Mounted vs f k (c ∷ cs) h = (k c h.0, h.1)
