-- ===== src/Codec/KvMap/Order.antt =====
-- The order of keys is a strict order, and `eq` is equality.
use Prim.Native.Nat.{Ordering}
use hello_websocket.Prelude.{◌≡◌, refl, [], ◌∷◌, arith}
use hello_websocket.Codec.KvMap.{Text, compare_text}

pub compare_text-swap :
    (a b : Text) → compare_text a b ≡ Ordering.lt → compare_text b a ≡ Ordering.gt
unfolding compare_text
compare_text-swap [] [] h = cc
compare_text-swap [] (y ∷ ys) h = refl
compare_text-swap (x ∷ xs) [] h = cc
compare_text-swap (x ∷ xs) (y ∷ ys) h = ground (arith, compare_text-swap xs ys)

pub compare_text-swap_gt :
    (a b : Text) → compare_text a b ≡ Ordering.gt → compare_text b a ≡ Ordering.lt
unfolding compare_text
compare_text-swap_gt [] [] h = cc
compare_text-swap_gt [] (y ∷ ys) h = cc
compare_text-swap_gt (x ∷ xs) [] h = refl
compare_text-swap_gt (x ∷ xs) (y ∷ ys) h = ground (arith, compare_text-swap_gt xs ys)

pub compare_text-eq : (a b : Text) → compare_text a b ≡ Ordering.eq → a ≡ b
unfolding compare_text
compare_text-eq [] [] h = refl
compare_text-eq [] (y ∷ ys) h = cc
compare_text-eq (x ∷ xs) [] h = cc
compare_text-eq (x ∷ xs) (y ∷ ys) h = ground (arith, compare_text-eq xs ys)

pub compare_text_trans :
    (a b c : Text)
    → compare_text a b ≡ Ordering.lt
    → compare_text b c ≡ Ordering.lt
    → compare_text a c ≡ Ordering.lt
unfolding compare_text
compare_text_trans [] [] c p q = cc
compare_text_trans [] (y ∷ ys) [] p q = cc
compare_text_trans [] (y ∷ ys) (z ∷ zs) p q = refl
compare_text_trans (x ∷ xs) [] c p q = cc
compare_text_trans (x ∷ xs) (y ∷ ys) [] p q = cc
compare_text_trans (x ∷ xs) (y ∷ ys) (z ∷ zs) p q = ground (arith, compare_text_trans xs ys zs)
