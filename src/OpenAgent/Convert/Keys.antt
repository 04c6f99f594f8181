-- ===== src/OpenAgent/Convert/Keys.antt =====
-- That the maps which are built by assignments have distinct keys
-- (internal/controller/install_agents.go).
use whatap_operator.Prelude.{
  String, Bool, true, false, if◌then◌else◌, is_some, not, ◌==◌, ◌≡◌, refl, ap, ◌∙◌, arith, eq_iff,
  eq_of_test, and_parts, and_intro, Bool-cases, inl, inr,
}
use whatap_operator.OpenAgent.Yaml.{Value, Fields, end, field}
use whatap_operator.OpenAgent.Yaml.Entries.{find}
use whatap_operator.OpenAgent.Yaml.Keys.{absent, distinct}
use whatap_operator.OpenAgent.Convert.{set}
use whatap_operator.OpenAgent.Convert.Lookup.{find-set}

pub set-distinct :
    (k : String) (v : Value) (m : Fields) → distinct m ≡ true → distinct (set k v m) ≡ true
unfolding set distinct find
set-distinct k v end d = refl
set-distinct k v (field l w m) d = elim (Bool-cases (l == k)) [
  | inl e ↦ rw e (rw (eq_of_test l k e) at d)
  | inr e ↦
      let parts : (absent l m ≡ true) × (distinct m ≡ true) = and_parts d in
      let apart : (k == l) ≡ false = ground (arith, e, eq_iff k l, eq_iff l k) in
      let out : absent l (set k v m) ≡ true =
        ap (λ o. not (is_some o)) (find-set l k v m) ∙ rw apart parts.0 in
      rw e (and_intro out (set-distinct k v m parts.1))
]

pub skip-distinct :
    (k : String) (v : Value) (b : Bool) (m : Fields)
    → distinct m ≡ true
    → distinct (if b then m else set k v m) ≡ true
skip-distinct k v true m d = d
skip-distinct k v false m d = set-distinct k v m d
