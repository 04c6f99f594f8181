-- ===== src/OpenAgent/LabelName.antt =====
-- Names of Prometheus labels (internal/controller/install_agents.go, sanitizePromLabelName). The
-- regular expression [^a-zA-Z0-9_] is written as a test on code points.
use Prim.Native.Char.{Char, char, code}
use Prim.Native.String.{[], ◌∷◌}
use whatap_operator.Prelude.{
  ℕ, String, Bool, true, if◌then◌else◌, ltb, not, ◌&&◌, ◌||◌, ◌≡◌, ◌↔◌, ◌∙◌, sym, refl, ap, arith,
  Bool-cases, and_parts, inl, inr,
}

abbrev pub is_label_char : ℕ → Bool
is_label_char c =
    (not (ltb c 97) && ltb c 123)
    || ((not (ltb c 65) && ltb c 91)
        || ((not (ltb c 48) && ltb c 58) || (not (ltb c 95) && ltb c 96)))

abbrev underscore : Char
underscore = char 95 tt

unfoldable pub sanitize_prom_label_name : String → String
sanitize_prom_label_name [] = ""
sanitize_prom_label_name (c ∷ s) =
    let rest = sanitize_prom_label_name s in
    if is_label_char (code c) then c ∷ rest else underscore ∷ rest

-- Whether every character may stand in the name of a label.
unfoldable pub is_label_name : String → Bool
is_label_name [] = true
is_label_name (c ∷ s) = is_label_char (code c) && is_label_name s

sanitized_is_label_name : (s : String) → is_label_name (sanitize_prom_label_name s) ≡ true
unfolding sanitize_prom_label_name is_label_name
sanitized_is_label_name [] = refl
sanitized_is_label_name (c ∷ s) = elim (Bool-cases (is_label_char (code c))) [
  | inl e ↦ rw e (ground (arith, e, sanitized_is_label_name s))
  | inr e ↦ rw e (sanitized_is_label_name s)
]

sanitize-label_name : (s : String) → is_label_name s ≡ true → sanitize_prom_label_name s ≡ s
unfolding sanitize_prom_label_name is_label_name
sanitize-label_name [] h = refl
sanitize-label_name (c ∷ s) h =
    let e : is_label_char (code c) ≡ true = (and_parts h).0 in
    rw e (ap (λ t. c ∷ t) (sanitize-label_name s (and_parts h).1))

-- A sanitized name has only letters, digits and underscores, and it is the name itself if, and only
-- if, that had only these.
pub sanitize_prom_label_name_valid :
    (s : String)
    → (is_label_name (sanitize_prom_label_name s) ≡ true)
      × ((is_label_name s ≡ true) ↔ (sanitize_prom_label_name s ≡ s))
sanitize_prom_label_name_valid s = (
  sanitized_is_label_name s,
  (sanitize-label_name s, λ e. ap is_label_name (sym e) ∙ sanitized_is_label_name s),
)
