-- ===== src/Codec/KvMap.antt =====
-- `std::map<std::string, std::string>`: its entries in the order of iteration, which is that of
-- the keys. A `std::string` is the list of its bytes, compared as unsigned bytes.
pub mod Order
pub mod Laws
use Prim.Native.Nat.{compare, Ordering}
use hello_websocket.Prelude.{ℕ, List, [], ◌∷◌, ◌≡◌, All}

abbrev pub Text : Type 0
Text = List ℕ

abbrev pub KvMap : Type 0
KvMap = List (Text × Text)

unfoldable pub compare_text : Text → Text → Ordering
compare_text [] [] = Ordering.eq
compare_text [] (y ∷ ys) = Ordering.lt
compare_text (x ∷ xs) [] = Ordering.gt
compare_text (x ∷ xs) (y ∷ ys) =
    let rest = compare_text xs ys in
    elim (compare x y) [
      | Ordering.lt ↦ Ordering.lt
      | Ordering.gt ↦ Ordering.gt
      | Ordering.eq ↦ rest
    ]

-- One node of the search: `key` against the key of the entry `e`, with `rest` for the insertion
-- into the entries behind it.
unfoldable pub place : Ordering → Text → Text → Text × Text → KvMap → KvMap → KvMap
place Ordering.lt key value e m rest = (key, value) ∷ e ∷ m
place Ordering.eq key value e m rest = (e.0, value) ∷ m
place Ordering.gt key value e m rest = e ∷ rest

-- `m[key] = value`
unfoldable pub assign : Text → Text → KvMap → KvMap
unfolding place compare_text
assign key value [] = (key, value) ∷ []
assign key value (e ∷ m) = place (compare_text key e.0) key value e m (assign key value m)

-- The keys ascend: what a `std::map` maintains.
abbrev pub IsSorted : KvMap → Type 0
IsSorted [] = Unit {0}
IsSorted (e ∷ m) = All (λ (f : Text × Text). compare_text e.0 f.0 ≡ Ordering.lt) m × IsSorted m
