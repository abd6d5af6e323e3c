-- ===== src/Codec/Wire/SoundKv.antt =====
-- The maps and result lists that a `ByteReader` returns on any input.
use hello_websocket.Codec.Outcome.{kv_count_too_large, result_count_too_large}
use hello_websocket.Codec.Wire.Reads.{at}
use hello_websocket.Codec.Wire.{be32, wire_i64, IsEntry, wire_entries, IsResult, IsKv, IsByte}
use hello_websocket.Codec.Wire.SoundPrimitives.{Sound-IsU32, Sound-u8, Sound-string, Sound-IsI64}
use hello_websocket.Prelude.{
  inr, inl, ◌/◌, ltb, Bool-cases, ℕ, zero, suc, ◌+◌, ◌^◌, ◌≤◌, ◌<◌, ◌≡◌, refl, ap, ap₂, ◌∙◌, sym,
  List, [], ◌∷◌, ◌++◌, arith, length, subst, append_assoc, append-nil, All,
}
use hello_websocket.Codec.KvMap.{KvMap, assign, IsSorted}
use hello_websocket.Codec.KvMap.Laws.{assign-IsSorted, All-assign, length-assign}
use hello_websocket.Codec.Message.{EchoResult, read_results, read_result_list}
use hello_websocket.Codec.Reader.{remaining, read_entries, read_counted, read_kv}
use hello_websocket.Codec.Wire.Parses.{
  Parses, rejected, Sound, Sound-bind, Sound-pure, Sound-weaken,
}
use hello_websocket.Codec.Wire.Encodes.{assign_all, EncodesKv, EncodesResults}

-- What the loop of `readKV` makes of `n` more entries.
abbrev Entries : KvMap → ℕ → KvMap → List ℕ → Type 0
Entries acc n m x =
    (es : KvMap) × (length es ≡ n)
    × (x ≡ wire_entries es)
    × (m ≡ assign_all acc es)
    × All IsEntry es

Sound-Entries : (n : ℕ) (acc : KvMap) → Sound (read_entries n acc) (Entries acc n)
unfolding read_entries
Sound-Entries zero acc = Sound-pure acc ([], refl, refl, refl, tt)
Sound-Entries (suc n) acc = Sound-bind _ _ Sound-string (λ key x p hx.
    Sound-bind _ _ Sound-string (λ val y q hy.
      Sound-weaken
        (λ m z e.
          ((key, val) ∷ e.0, ap suc e.1, ap₂ ◌++◌ p.1 (ap₂ ◌++◌ q.1 e.2), e.3, ((p.0, q.0), e.4)))
        (Sound-Entries n (assign key val acc))))

assign_all-IsSorted : (es acc : KvMap) → IsSorted acc → IsSorted (assign_all acc es)
assign_all-IsSorted [] acc s = s
assign_all-IsSorted (e ∷ es) acc s = assign_all-IsSorted es _ (assign-IsSorted e.0 e.1 acc s)

assign_all-entries :
    (es acc : KvMap) → All IsEntry es → All IsEntry acc → All IsEntry (assign_all acc es)
assign_all-entries [] acc h k = k
assign_all-entries (e ∷ es) acc h k =
    assign_all-entries es _ h.1 (All-assign IsEntry e.0 e.1 acc h.0 k)

length-assign_all : (es acc : KvMap) → length (assign_all acc es) ≤ length acc + length es
length-assign_all [] acc = omega arith
length-assign_all (e ∷ es) acc =
    omega (arith, length-assign_all es (assign e.0 e.1 acc), length-assign e.0 e.1 acc)

assign_all-IsKv : (es : KvMap) → All IsEntry es → length es < 2 ^ 32 → IsKv (assign_all [] es)
assign_all-IsKv es h few = record {
  sorted = assign_all-IsSorted es [] tt;
  entries = assign_all-entries es [] h tt;
  few = omega (arith, length-assign_all es []);
}

counted_answer :
    (n : ℕ) (pre s : List ℕ)
    → All IsByte s
    → Parses (Entries [] n) pre s (read_counted n (at pre s))
unfolding read_counted
counted_answer n pre s h = elim (Bool-cases (ltb (remaining (at pre s) / 8) n)) [
  | inl large ↦ rw large (rejected kv_count_too_large)
  | inr small ↦ rw small ((Sound-Entries n []).run pre s h)
]

pub Sound-IsKv : Sound read_kv (λ m x. IsKv m × EncodesKv m x)
unfolding read_kv
Sound-IsKv = Sound-bind _ _ Sound-IsU32 (λ n x p hx.
    Sound-weaken
      (λ m y e. (
        subst IsKv (sym e.3) (assign_all-IsKv e.0 e.4 (omega (arith, e.1, p.0))),
        (e.0, ap₂ ◌++◌ (p.1 ∙ ap be32 (sym e.1)) e.2, e.3, e.4, omega (arith, e.1, p.0)),
      ))
      (record { run = counted_answer n }))

-- What the loop over the results makes of `n` more of them.
abbrev Results : List EchoResult → ℕ → List EchoResult → List ℕ → Type 0
Results acc n rs x =
    (new : List EchoResult) × (length new ≡ n)
    × (rs ≡ acc ++ new)
    × All IsResult new
    × EncodesResults new x

Sound-Results : (n : ℕ) (acc : List EchoResult) → Sound (read_results n acc) (Results acc n)
unfolding read_results
Sound-Results zero acc = Sound-pure acc ([], refl, sym (append-nil acc), tt, refl)
Sound-Results (suc n) acc = Sound-bind _ _ Sound-IsI64 (λ idx x p hx.
    Sound-bind _ _ Sound-u8 (λ type y q hy. Sound-bind _ _ Sound-IsKv (λ kv z k hz.
      Sound-weaken
        (λ rs w e.
          let r : EchoResult = record { idx = idx; type = type; kv = kv } in
          (
            r ∷ e.0,
            ap suc e.1,
            e.2 ∙ append_assoc acc (r ∷ []) e.0,
            (record { idx = p.0; type = q.0; kv = k.0 }, e.3),
            (
              wire_i64 idx ++ type ∷ z,
              w,
              ap₂ (λ (a b : List ℕ). a ++ (b ++ (z ++ w))) p.1 q.1,
              (z, refl, k.1),
              e.4,
            ),
          ))
        (Sound-Results n (acc ++ record { idx = idx; type = type; kv = kv } ∷ [])))))

result_list_answer :
    (n : ℕ) (pre s : List ℕ)
    → All IsByte s
    → Parses (Results [] n) pre s (read_result_list n (at pre s))
unfolding read_result_list
result_list_answer n pre s h = elim (Bool-cases (ltb (remaining (at pre s) / 13) n)) [
  | inl large ↦ rw large (rejected result_count_too_large)
  | inr small ↦ rw small ((Sound-Results n []).run pre s h)
]

pub Sound-IsResult_list :
    (n : ℕ)
    → Sound (read_result_list n) (λ rs x. All IsResult rs × EncodesResults rs x × (length rs ≡ n))
Sound-IsResult_list n =
    Sound-weaken
      (λ rs x e. (
        subst (All IsResult) (sym e.2) e.3,
        subst (λ (t : List EchoResult). EncodesResults t x) (sym e.2) e.4,
        ap length e.2 ∙ e.1,
      ))
      (record { run = result_list_answer n })
