-- ===== src/OpenAgent/Yaml/Determinism.antt =====
-- That the ordered form does not depend on the order of a map's entries
-- (internal/controller/install_agents.go, toOrderedYAML).
use whatap_operator.Prelude.{
  String, false, List, [], ◌∷◌, Dict, ◌==◌, ◌≡◌, refl, ap, ◌∙◌, arith, eq_iff,
}
use whatap_operator.OpenAgent.Yaml.{
  Value, Items, Fields, text, texts, text_map, texts_map, object, array, map_slice, nil, cons, end,
  field, insert_field, sort_fields, text_fields, texts_fields, to_ordered_yaml, ordered_values,
  ordered_items,
}
use whatap_operator.OpenAgent.Yaml.TextOrder.{text_leb_total, text_leb_trans, text_leb_antisym}

-- The entries of one map in two orders: neighbours with different keys change places.
pub data SameMap {ℓ} {V : Type ℓ} : Dict V → Dict V → Type ℓ where
  done : SameMap [] []
  keep : (k : String) (v : V) {d e : Dict V} → SameMap d e → SameMap ((k, v) ∷ d) ((k, v) ∷ e)
  swap :
      (k l : String) (v w : V) (d : Dict V)
      → (k == l) ≡ false
      → SameMap ((k, v) ∷ (l, w) ∷ d) ((l, w) ∷ (k, v) ∷ d)
  chain : {d e f : Dict V} → SameMap d e → SameMap e f → SameMap d f

-- One value, with the entries of its maps in two orders, at every depth.
mutual
  pub data Same : Value → Value → Type 0 where
    alike : (v : Value) → Same v v
    same_text_map : {d e : Dict String} → SameMap d e → Same (text_map d) (text_map e)
    same_texts_map : {d e : Dict (List String)} → SameMap d e → Same (texts_map d) (texts_map e)
    same_object : {fs gs : Fields} → SameFields fs gs → Same (object fs) (object gs)
    same_array : {xs ys : Items} → SameItems xs ys → Same (array xs) (array ys)

  pub data SameItems : Items → Items → Type 0 where
    same_nil : SameItems nil nil
    same_cons :
        {x y : Value} {xs ys : Items}
        → Same x y
        → SameItems xs ys
        → SameItems (cons x xs) (cons y ys)

  pub data SameFields : Fields → Fields → Type 0 where
    same_end : SameFields end end
    same_field :
        (k : String) {v w : Value} {fs gs : Fields}
        → Same v w
        → SameFields fs gs
        → SameFields (field k v fs) (field k w gs)
    swap_fields :
        (k l : String) (v w : Value) (fs : Fields)
        → (k == l) ≡ false
        → SameFields (field k v (field l w fs)) (field l w (field k v fs))
    chain_fields : {fs gs hs : Fields} → SameFields fs gs → SameFields gs hs → SameFields fs hs

insert_field_comm :
    (k l : String) (v w : Value) (fs : Fields)
    → (k == l) ≡ false
    → insert_field k v (insert_field l w fs) ≡ insert_field l w (insert_field k v fs)
unfolding insert_field
insert_field_comm k l v w end h =
    ground (arith, eq_iff k l, text_leb_total k l, text_leb_antisym k l)
insert_field_comm k l v w (field x u fs) h = ground (
  arith,
  insert_field_comm k l v w fs h,
  eq_iff k l,
  text_leb_total k l,
  text_leb_total k x,
  text_leb_total l x,
  text_leb_antisym k l,
  text_leb_trans k l x,
  text_leb_trans l k x,
)

sort_texts-SameMap :
    {d e : Dict String} → SameMap d e → sort_fields (text_fields d) ≡ sort_fields (text_fields e)
unfolding sort_fields
sort_texts-SameMap done = refl
sort_texts-SameMap (keep k v h) = ap (insert_field k (text v)) (sort_texts-SameMap h)
sort_texts-SameMap (swap k l v w d h) =
    insert_field_comm k l (text v) (text w) (sort_fields (text_fields d)) h
sort_texts-SameMap (chain h g) = sort_texts-SameMap h ∙ sort_texts-SameMap g

sort_lists-SameMap :
    {d e : Dict (List String)}
    → SameMap d e
    → sort_fields (texts_fields d) ≡ sort_fields (texts_fields e)
unfolding sort_fields
sort_lists-SameMap done = refl
sort_lists-SameMap (keep k v h) = ap (insert_field k (texts v)) (sort_lists-SameMap h)
sort_lists-SameMap (swap k l v w d h) =
    insert_field_comm k l (texts v) (texts w) (sort_fields (texts_fields d)) h
sort_lists-SameMap (chain h g) = sort_lists-SameMap h ∙ sort_lists-SameMap g

mutual
  unfolding to_ordered_yaml sort_fields

  ordered-Same : {v w : Value} → Same v w → to_ordered_yaml v ≡ to_ordered_yaml w
  ordered-Same (alike v) = refl
  ordered-Same (same_text_map h) = ap map_slice (sort_texts-SameMap h)
  ordered-Same (same_texts_map h) = ap map_slice (sort_lists-SameMap h)
  ordered-Same (same_object h) = ap map_slice (ordered-SameFields h)
  ordered-Same (same_array h) = ap array (ordered-SameItems h)

  ordered-SameItems : {xs ys : Items} → SameItems xs ys → ordered_items xs ≡ ordered_items ys
  ordered-SameItems same_nil = refl
  ordered-SameItems (same_cons {x} {y} {xs} {ys} h hs) =
      ap (λ z. cons z (ordered_items xs)) (ordered-Same h)
      ∙ ap (cons (to_ordered_yaml y)) (ordered-SameItems hs)

  ordered-SameFields :
      {fs gs : Fields}
      → SameFields fs gs
      → sort_fields (ordered_values fs) ≡ sort_fields (ordered_values gs)
  ordered-SameFields same_end = refl
  ordered-SameFields (same_field k {v} {w} {fs} {gs} h hs) =
      ap (λ z. insert_field k z (sort_fields (ordered_values fs))) (ordered-Same h)
      ∙ ap (insert_field k (to_ordered_yaml w)) (ordered-SameFields hs)
  ordered-SameFields (swap_fields k l v w fs h) =
      insert_field_comm k l (to_ordered_yaml v) (to_ordered_yaml w)
        (sort_fields (ordered_values fs)) h
  ordered-SameFields (chain_fields h g) = ordered-SameFields h ∙ ordered-SameFields g

-- Two values that differ only in the order of the entries of their maps, at whatever depth, have the
-- same ordered form: the random order in which Go walks a map does not reach the output.
pub to_ordered_yaml-Same : (v w : Value) → Same v w → to_ordered_yaml v ≡ to_ordered_yaml w
to_ordered_yaml-Same v w h = ordered-Same h
