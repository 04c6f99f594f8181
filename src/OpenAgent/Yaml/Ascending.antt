-- ===== src/OpenAgent/Yaml/Ascending.antt =====
-- That the keys of the ordered form ascend at every depth
-- (internal/controller/install_agents.go, toOrderedYAML).
use whatap_operator.Prelude.{
  String, Bool, true, false, List, [], ◌∷◌, Dict, ◌&&◌, ◌≡◌, refl, arith, inl, inr, Bool-cases,
  and_parts, and_intro,
}
use whatap_operator.OpenAgent.Yaml.{
  Value, Items, Fields, text, number, flag, texts, text_map, texts_map, object, array, map_slice,
  nil, cons, end, field, insert_field, sort_fields, text_fields, texts_fields, to_ordered_yaml,
  ordered_values, ordered_items,
}
use whatap_operator.OpenAgent.Yaml.TextOrder.{text_leb, text_leb_total}

-- Whether a key comes before those of a list of entries, which is all that ascending needs to know
-- about the first of them.
abbrev pub before : String → Fields → Bool
before k end = true
before k (field l v fs) = text_leb k l

-- Whether a value has no Go map in it and the keys of all its MapSlices ascend.
unfoldable mutual
  pub ordered : Value → Bool
  ordered (map_slice fs) = ascending fs
  ordered (object fs) = false
  ordered (text_map d) = false
  ordered (texts_map d) = false
  ordered (array xs) = all_ordered xs
  ordered v = true

  pub all_ordered : Items → Bool
  all_ordered nil = true
  all_ordered (cons x xs) = ordered x && all_ordered xs

  pub ascending : Fields → Bool
  ascending end = true
  ascending (field k v fs) = ordered v && (before k fs && ascending fs)

-- Whether a value has no MapSlice in it, as what the operator builds has not.
unfoldable mutual
  pub plain : Value → Bool
  plain (map_slice fs) = false
  plain (object fs) = plain_fields fs
  plain (array xs) = plain_items xs
  plain v = true

  pub plain_items : Items → Bool
  plain_items nil = true
  plain_items (cons x xs) = plain x && plain_items xs

  pub plain_fields : Fields → Bool
  plain_fields end = true
  plain_fields (field k v fs) = plain v && plain_fields fs

before-insert_field :
    (j k : String) (v : Value) (fs : Fields)
    → text_leb j k ≡ true
    → before j fs ≡ true
    → before j (insert_field k v fs) ≡ true
unfolding insert_field
before-insert_field j k v end h g = h
before-insert_field j k v (field l w fs) h g = ground arith

ascending-insert_field :
    (k : String) (v : Value) (fs : Fields)
    → ordered v ≡ true
    → ascending fs ≡ true
    → ascending (insert_field k v fs) ≡ true
unfolding insert_field ordered
ascending-insert_field k v end h g = ground arith
ascending-insert_field k v (field l w fs) h g = elim (Bool-cases (text_leb k l)) [
  | inl e ↦ rw e (and_intro h (and_intro e g))
  | inr e ↦
      let head = (and_parts g).0 in
      let tail = and_parts (and_parts g).1 in
      let below = before-insert_field l k v fs (text_leb_total k l e) tail.0 in
      rw e (and_intro head (and_intro below (ascending-insert_field k v fs h tail.1)))
]

ascending-texts : (d : Dict String) → ascending (sort_fields (text_fields d)) ≡ true
unfolding sort_fields ordered
ascending-texts [] = refl
ascending-texts ((k, v) ∷ d) =
    ascending-insert_field k (text v) (sort_fields (text_fields d)) refl (ascending-texts d)

ascending-lists : (d : Dict (List String)) → ascending (sort_fields (texts_fields d)) ≡ true
unfolding sort_fields ordered
ascending-lists [] = refl
ascending-lists ((k, v) ∷ d) =
    ascending-insert_field k (texts v) (sort_fields (texts_fields d)) refl (ascending-lists d)

mutual
  unfolding to_ordered_yaml ordered plain sort_fields

  ordered_value : (v : Value) → plain v ≡ true → ordered (to_ordered_yaml v) ≡ true
  ordered_value (text s) h = refl
  ordered_value (number n) h = refl
  ordered_value (flag b) h = refl
  ordered_value (texts ss) h = refl
  ordered_value (text_map d) h = ascending-texts d
  ordered_value (texts_map d) h = ascending-lists d
  ordered_value (object fs) h = ordered_entries fs h
  ordered_value (array xs) h = ordered_elements xs h
  ordered_value (map_slice fs) h = ground arith

  ordered_elements : (xs : Items) → plain_items xs ≡ true → all_ordered (ordered_items xs) ≡ true
  ordered_elements nil h = refl
  ordered_elements (cons x xs) h =
      let parts = and_parts h in and_intro (ordered_value x parts.0) (ordered_elements xs parts.1)

  ordered_entries :
      (fs : Fields) → plain_fields fs ≡ true → ascending (sort_fields (ordered_values fs)) ≡ true
  ordered_entries end h = refl
  ordered_entries (field k v fs) h =
      ascending-insert_field k (to_ordered_yaml v) (sort_fields (ordered_values fs))
        (ordered_value v (and_parts h).0) (ordered_entries fs (and_parts h).1)

-- The ordered form of a value that has no MapSlice in it has no Go map left at any depth, and the
-- keys of each of its MapSlices ascend.
pub ordered-to_ordered_yaml : (v : Value) → plain v ≡ true → ordered (to_ordered_yaml v) ≡ true
ordered-to_ordered_yaml v h = ordered_value v h
