-- ===== src/OpenAgent/Convert/Lookup.antt =====
-- What a key has in a map that is built by assignments (internal/controller/install_agents.go,
-- convertEndpoints and the functions beside it).
use whatap_operator.Prelude.{
  String, Bool, true, false, Option, none, some, if◌then◌else◌, ◌==◌, ◌≡◌, refl, ◌∙◌, arith, eq_iff,
}
use whatap_operator.OpenAgent.Yaml.{Value, Fields, end, field, text}
use whatap_operator.OpenAgent.Yaml.Entries.{find}
use whatap_operator.OpenAgent.Convert.{set, set_file}

pub find-set :
    (j k : String) (v : Value) (m : Fields)
    → find j (set k v m) ≡ (if k == j then some v else find j m)
unfolding find set
find-set j k v end = refl
find-set j k v (field l w m) = ground (arith, find-set j k v m, eq_iff k j, eq_iff l j, eq_iff l k)

-- An assignment to another key, made or not.
pub find-skip :
    (j k : String) (v : Value) (b : Bool) (m : Fields)
    → (k == j) ≡ false
    → find j (if b then m else set k v m) ≡ find j m
find-skip j k v true m h = refl
find-skip j k v false m h = find-set j k v m ∙ rw h refl

pub find-assign :
    (j k : String) (v : Value) (b : Bool) (m : Fields)
    → (k == j) ≡ false
    → find j (if b then set k v m else m) ≡ find j m
find-assign j k v true m h = find-set j k v m ∙ rw h refl
find-assign j k v false m h = refl

pub find-set_file_other :
    (j k : String) (o : Option String) (m : Fields)
    → (k == j) ≡ false
    → find j (set_file k o m) ≡ find j m
find-set_file_other j k none m h = refl
find-set_file_other j k (some f) m h = find-set j k (text f) m ∙ rw h refl

pub find-set_file :
    (k f : String) (o : Option String) (m : Fields)
    → o ≡ some f
    → find k (set_file k o m) ≡ some (text f)
find-set_file k f o m h = rw h (find-set k k (text f) m ∙ ground (arith, eq_iff k k))
