-- ===== src/OpenAgent/Gpu/Labels.antt =====
-- That sorting the labels of a selector does not change the check for duplicates
-- (internal/controller/install_agents.go, generateScrapeConfig).
use whatap_operator.Prelude.{
  String, Bool, true, false, is_some, [], ◌∷◌, Dict, lookup, insert, any, all, contains, is_empty,
  not, ◌&&◌, ◌||◌, ◌≡◌, refl, ap, ◌∙◌, sym, arith, eq_iff, and_parts, and_intro, lookup-insert,
}
use whatap_operator.OpenAgent.Yaml.{
  Fields, text, end, field, insert_field, sort_fields, text_fields,
}
use whatap_operator.OpenAgent.Yaml.Entries.{find, find-text_fields}
use whatap_operator.OpenAgent.Yaml.Keys.{absent, distinct, sort_fields-distinct, is_some-map}
use whatap_operator.OpenAgent.Gpu.{add_texts, check_duplicate, has_value, identity_keys}

abbrev pub unknown : String → Dict String → Bool
unknown k d = not (is_some (lookup k d))

-- Whether no key is there twice, as in any Go map.
abbrev pub distinct_keys : Dict String → Bool
distinct_keys [] = true
distinct_keys ((k, v) ∷ d) = unknown k d && distinct_keys d

any-insert :
    (p : String × String → Bool) (k v : String) (d : Dict String)
    → unknown k d ≡ true
    → any p (insert k v d) ≡ (p (k, v) || any p d)
unfolding insert lookup
any-insert p k v [] u = refl
any-insert p k v ((l, w) ∷ d) u = ground (arith, any-insert p k v d)

-- The entries of a list of labels, as pairs.
abbrev pairs : Fields → Dict String
pairs end = []
pairs (field k (text s) fs) = (k, s) ∷ pairs fs
pairs (field k v fs) = pairs fs

abbrev texty : Fields → Bool
texty end = true
texty (field k (text s) fs) = texty fs
texty (field k v fs) = false

-- Whether no key of the labels is in a map.
abbrev disjoint : Dict String → Fields → Bool
disjoint acc end = true
disjoint acc (field k v fs) = unknown k acc && disjoint acc fs

disjoint_nil : (fs : Fields) → disjoint [] fs ≡ true
unfolding lookup
disjoint_nil end = refl
disjoint_nil (field k v fs) = disjoint_nil fs

disjoint-insert :
    (k v : String) (acc : Dict String) (fs : Fields)
    → disjoint acc fs ≡ true
    → absent k fs ≡ true
    → disjoint (insert k v acc) fs ≡ true
unfolding find
disjoint-insert k v acc end h a = refl
disjoint-insert k v acc (field l w fs) h a =
    ground (arith, disjoint-insert k v acc fs, lookup-insert k l v acc, eq_iff k l, eq_iff l k)

any-add_texts :
    (p : String × String → Bool) (acc : Dict String) (fs : Fields)
    → texty fs ≡ true
    → distinct fs ≡ true
    → disjoint acc fs ≡ true
    → any p (add_texts acc fs) ≡ (any p acc || any p (pairs fs))
unfolding add_texts distinct
any-add_texts p acc end t d h = ground arith
any-add_texts p acc (field k (text s) fs) t d h =
    any-add_texts p (insert k s acc) fs t (and_parts d).1
      (disjoint-insert k s acc fs (and_parts h).1 (and_parts d).0)
    ∙ ground (arith, any-insert p k s acc (and_parts h).0)
any-add_texts p acc (field k v fs) t d h = ground arith

texty-insert_field :
    (k v : String) (fs : Fields) → texty fs ≡ true → texty (insert_field k (text v) fs) ≡ true
unfolding insert_field
texty-insert_field k v end t = refl
texty-insert_field k v (field l (text s) fs) t = ground (arith, texty-insert_field k v fs)
texty-insert_field k v (field l w fs) t = ground arith

texty_sorted : (d : Dict String) → texty (sort_fields (text_fields d)) ≡ true
unfolding sort_fields
texty_sorted [] = refl
texty_sorted ((k, v) ∷ d) = texty-insert_field k v (sort_fields (text_fields d)) (texty_sorted d)

any-insert_field :
    (p : String × String → Bool) (k v : String) (fs : Fields)
    → texty fs ≡ true
    → any p (pairs (insert_field k (text v) fs)) ≡ (p (k, v) || any p (pairs fs))
unfolding insert_field
any-insert_field p k v end t = refl
any-insert_field p k v (field l (text s) fs) t = ground (arith, any-insert_field p k v fs)
any-insert_field p k v (field l w fs) t = ground arith

any_sorted :
    (p : String × String → Bool) (d : Dict String)
    → any p (pairs (sort_fields (text_fields d))) ≡ any p d
unfolding sort_fields
any_sorted p [] = refl
any_sorted p ((k, v) ∷ d) =
    any-insert_field p k v (sort_fields (text_fields d)) (texty_sorted d)
    ∙ ap (λ b. p (k, v) || b) (any_sorted p d)

text_fields-distinct : (d : Dict String) → distinct_keys d ≡ true → distinct (text_fields d) ≡ true
unfolding distinct
text_fields-distinct [] h = refl
text_fields-distinct ((k, v) ∷ d) h =
    let same = ap is_some (find-text_fields k d) ∙ is_some-map text (lookup k d) in
    and_intro (ap not same ∙ (and_parts h).0) (text_fields-distinct d (and_parts h).1)

any_converted :
    (p : String × String → Bool) (d : Dict String)
    → distinct_keys d ≡ true
    → any p (add_texts [] (sort_fields (text_fields d))) ≡ any p d
any_converted p d h =
    any-add_texts p [] (sort_fields (text_fields d)) (texty_sorted d)
      (sort_fields-distinct (text_fields d) (text_fields-distinct d h))
      (disjoint_nil (sort_fields (text_fields d)))
    ∙ any_sorted p d

all-any : (p : String × String → Bool) (d : Dict String) → all p d ≡ not (any (λ l. not (p l)) d)
all-any p [] = refl
all-any p (l ∷ d) = ground (arith, all-any p d)

empty_any : (d : Dict String) → is_empty d ≡ not (any (λ l. true) d)
empty_any [] = refl
empty_any (l ∷ d) = refl

-- The check as three questions whether some label has a property.
check_any :
    (labels d : Dict String)
    → check_duplicate labels d ≡ (
        any (λ l. true) d
        && (not (any (λ l. not (has_value (lookup l.0 labels) l.1)) d)
            && any (λ l. contains identity_keys l.0) d))
unfolding check_duplicate
check_any labels d = ground (arith, empty_any d, all-any (λ l. has_value (lookup l.0 labels) l.1) d)

-- The labels of an ordered target are a duplicate exactly if those of the resource are.
pub check_duplicate-ordered :
    (labels d : Dict String)
    → distinct_keys d ≡ true
    → check_duplicate labels (add_texts [] (sort_fields (text_fields d))) ≡ check_duplicate labels d
check_duplicate-ordered labels d h =
    check_any labels (add_texts [] (sort_fields (text_fields d)))
    ∙ rw
        (
          any_converted (λ l. true) d h,
          any_converted (λ l. not (has_value (lookup l.0 labels) l.1)) d h,
          any_converted (λ l. contains identity_keys l.0) d h,
        )
        (sym (check_any labels d))
