-- ===== src/OpenAgent/Yaml/TextOrder.antt =====
-- The order of `sort.Strings` (internal/controller/install_agents.go, toOrderedYAML): that of the
-- bytes in UTF-8, which is that of the code points.
use Prim.Native.Char.{code}
use Prim.Native.String.{[], ◌∷◌}
use whatap_operator.Prelude.{
  String, Bool, true, false, ltb, nat_eq, ◌&&◌, ◌||◌, ◌≡◌, refl, arith, ap, ◌∙◌,
}
use text.Mathlib.TextEquality.{Char-path}

unfoldable pub text_leb : String → String → Bool
text_leb [] t = true
text_leb (c ∷ s) [] = false
text_leb (c ∷ s) (d ∷ t) = ltb (code c) (code d) || (nat_eq (code c) (code d) && text_leb s t)

pub text_leb_total : (s t : String) → text_leb s t ≡ false → text_leb t s ≡ true
unfolding text_leb
text_leb_total [] t h = ground arith
text_leb_total (c ∷ s) [] h = refl
text_leb_total (c ∷ s) (d ∷ t) h = ground (arith, text_leb_total s t)

pub text_leb_trans :
    (s t u : String) → text_leb s t ≡ true → text_leb t u ≡ true → text_leb s u ≡ true
unfolding text_leb
text_leb_trans [] t u h k = refl
text_leb_trans (c ∷ s) [] u h k = ground arith
text_leb_trans (c ∷ s) (d ∷ t) [] h k = ground arith
text_leb_trans (c ∷ s) (d ∷ t) (e ∷ u) h k = ground (arith, text_leb_trans s t u)

pub text_leb_antisym : (s t : String) → text_leb s t ≡ true → text_leb t s ≡ true → s ≡ t
unfolding text_leb
text_leb_antisym [] [] h k = refl
text_leb_antisym [] (d ∷ t) h k = ground arith
text_leb_antisym (c ∷ s) [] h k = ground arith
text_leb_antisym (c ∷ s) (d ∷ t) h k =
    ap (λ x. x ∷ s) (Char-path c d (ground arith))
    ∙ ap (λ r. d ∷ r) (text_leb_antisym s t (ground arith) (ground arith))

pub text_leb_refl : (s : String) → text_leb s s ≡ true
unfolding text_leb
text_leb_refl [] = refl
text_leb_refl (c ∷ s) = ground (arith, text_leb_refl s)
