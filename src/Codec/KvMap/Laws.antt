-- ===== src/Codec/KvMap/Laws.antt =====
-- `assign` keeps the keys ascending, and a key above all others goes to the end.
use Prim.Native.Nat.{Ordering}
use hello_websocket.Prelude.{◌+◌, ◌≤◌, ◌≡◌, refl, [], ◌∷◌, ◌++◌, All, arith, length, subst}
use hello_websocket.Codec.KvMap.{Text, KvMap, compare_text, place, assign, IsSorted}
use hello_websocket.Codec.KvMap.Order.{
  compare_text-swap, compare_text-swap_gt, compare_text-eq, compare_text_trans,
}

-- All keys of the map are below (above) `key`.
abbrev pub Below : Text → KvMap → Type 0
Below key m = All (λ (e : Text × Text). compare_text e.0 key ≡ Ordering.lt) m

abbrev pub Above : Text → KvMap → Type 0
Above key m = All (λ (e : Text × Text). compare_text key e.0 ≡ Ordering.lt) m

pub assign-cons :
    (key value : Text) (e : Text × Text) (m : KvMap)
    → assign key value (e ∷ m) ≡ place (compare_text key e.0) key value e m (assign key value m)
assign-cons key value e m = unfold assign in refl

pub assign-append :
    (key value : Text) (m : KvMap) → Below key m → assign key value m ≡ m ++ (key, value) ∷ []
assign-append key value [] h = unfold assign in refl
assign-append key value (e ∷ m) h =
    rw (assign-cons, compare_text-swap e.0 key h.0, assign-append key value m h.1)
      (unfold place in refl)

Above-trans : (a b : Text) (m : KvMap) → compare_text a b ≡ Ordering.lt → Above b m → Above a m
Above-trans a b [] h k = tt
Above-trans a b (e ∷ m) h k = (compare_text_trans a b e.0 h k.0, Above-trans a b m h k.1)

Above-place :
    (a key value : Text) (e : Text × Text) (m rest : KvMap) (o : Ordering)
    → compare_text a key ≡ Ordering.lt
    → Above a (e ∷ m)
    → Above a rest
    → Above a (place o key value e m rest)
unfolding place
Above-place a key value e m rest Ordering.lt h k r = (h, k)
Above-place a key value e m rest Ordering.eq h k r = k
Above-place a key value e m rest Ordering.gt h k r = (k.0, r)

Above-assign :
    (a key value : Text) (m : KvMap)
    → compare_text a key ≡ Ordering.lt
    → Above a m
    → Above a (assign key value m)
Above-assign a key value [] h k = unfold assign in (h, tt)
Above-assign a key value (e ∷ m) h k =
    rw assign-cons
      (Above-place a key value e m _ (compare_text key e.0) h k (Above-assign a key value m h k.1))

place-IsSorted :
    (key value : Text) (e : Text × Text) (m : KvMap) (o : Ordering)
    → compare_text key e.0 ≡ o
    → IsSorted (e ∷ m)
    → IsSorted (assign key value m)
    → IsSorted (place o key value e m (assign key value m))
unfolding place
place-IsSorted key value e m Ordering.lt c s r = ((c, Above-trans key e.0 m c s.0), s)
place-IsSorted key value e m Ordering.eq c s r = s
place-IsSorted key value e m Ordering.gt c s r =
    (Above-assign e.0 key value m (compare_text-swap_gt key e.0 c) s.0, r)

-- Assignment keeps the keys in ascending order.
pub assign-IsSorted : (key value : Text) (m : KvMap) → IsSorted m → IsSorted (assign key value m)
assign-IsSorted key value [] s = unfold assign in (tt, tt)
assign-IsSorted key value (e ∷ m) s =
    rw assign-cons (place-IsSorted key value e m _ refl s (assign-IsSorted key value m s.1))

-- An assignment adds one entry at most, and a property of the entry and of all others stays.
pub length-assign : (key value : Text) (m : KvMap) → length (assign key value m) ≤ length m + 1
length-assign key value [] = unfold assign in omega arith
length-assign key value (e ∷ m) =
    rw assign-cons (length-place (compare_text key e.0) (length-assign key value m))
  where
    length-place :
        (o : Ordering)
        → length (assign key value m) ≤ length m + 1
        → length (place o key value e m (assign key value m)) ≤ length (e ∷ m) + 1
    length-place Ordering.lt h = unfold place in omega arith
    length-place Ordering.eq h = unfold place in omega arith
    length-place Ordering.gt h = unfold place in omega arith

All-place :
    (P : Text × Text → Type 0) (key value : Text) (e : Text × Text) (m rest : KvMap) (o : Ordering)
    → compare_text key e.0 ≡ o
    → P (key, value)
    → All P (e ∷ m)
    → All P rest
    → All P (place o key value e m rest)
unfolding place
All-place P key value e m rest Ordering.lt c p h r = (p, h)
All-place P key value e m rest Ordering.eq c p h r =
    (subst (λ (t : Text). P (t, value)) (compare_text-eq key e.0 c) p, h.1)
All-place P key value e m rest Ordering.gt c p h r = (h.0, r)

pub All-assign :
    (P : Text × Text → Type 0) (key value : Text) (m : KvMap)
    → P (key, value)
    → All P m
    → All P (assign key value m)
All-assign P key value [] p h = unfold assign in (p, tt)
All-assign P key value (e ∷ m) p h =
    rw assign-cons (All-place P key value e m _ _ refl p h (All-assign P key value m p h.1))
