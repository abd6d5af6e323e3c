-- ===== src/Codec/Outcome.antt =====
-- How a function of codec.hpp ends: it returns, it throws a `std::runtime_error`, or it reads
-- outside its buffer, which C++ leaves undefined.
use hello_websocket.Prelude.{ℕ, none, some, List, get_elem?, take, drop, length, ltb, ◌+◌}
use hello_websocket.Prelude.{Bool, if◌then◌else◌, ◌≡◌, ◌⊎◌, inl, inr, refl}

-- One constructor for each `throw`.
pub data Exception : Type 0 where
  frame_too_short : ℕ → Exception
  bad_magic bad_version payload_length_mismatch : Exception
  unexpected_end string_too_long not_utf8 kv_count_too_large result_count_too_large : Exception
  unknown_message_type : Exception

pub data Result {ℓ} (A : Type ℓ) : Type ℓ where
  ok : A → Result A
  throw : Exception → Result A
  fault : Result A

-- `bytes[i]`
abbrev pub byte_at : List ℕ → ℕ → Result ℕ
byte_at bytes i = elim (get_elem? bytes i) [ none ↦ fault | some b ↦ ok b ]

-- The `n` bytes from `bytes + i` on.
abbrev pub slice : List ℕ → ℕ → ℕ → Result (List ℕ)
slice bytes i n = if ltb (length bytes) (i + n) then fault else ok (take n (drop i bytes))

-- The sequence of statements of a function that may throw.
infixl 5 ◌>>=◌ ◌>>◌
abbrev pub ◌>>=◌ {ℓ κ} : {A : Type ℓ} {B : Type κ} → Result A → (A → Result B) → Result B
ok a >>= f = f a
throw e >>= f = throw e
fault >>= f = fault

abbrev pub ◌>>◌ {ℓ} : {B : Type ℓ} → Result (Unit {0}) → Result B → Result B
m >> k = m >>= λ _. k

abbrev pub throw_if : Bool → Exception → Result (Unit {0})
throw_if b e = if b then throw e else ok tt

-- The ways in which a result comes about.
pub Result-cases :
    {A : Type 0} (r : Result A)
    → ((a : A) × (r ≡ ok a)) ⊎ (((e : Exception) × (r ≡ throw e)) ⊎ (r ≡ fault))
Result-cases (ok a) = inl (a, refl)
Result-cases (throw e) = inr (inl (e, refl))
Result-cases fault = inr (inr refl)

-- What a statement that hands on an exception has returned before.
pub ok_before :
    {A B : Type 0} (r : Result A) (f : A → Result B) (b : B)
    → (elim r [ ok a ↦ f a | throw e ↦ throw e | fault ↦ fault ]) ≡ ok b
    → (a : A) × (r ≡ ok a) × (f a ≡ ok b)
ok_before (ok a) f b e = (a, refl, e)
ok_before (throw x) f b e = absurd (cc)
ok_before fault f b e = absurd (cc)

-- The function returns.
abbrev pub Returns : {A : Type 0} → Result A → Type 0
Returns {A} r = (a : A) × (r ≡ ok a)
