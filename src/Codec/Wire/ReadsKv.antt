-- ===== src/Codec/Wire/ReadsKv.antt =====
-- What the loops of `readKV` and of the results return on an encoding.
use hello_websocket.Codec.KvMap.{assign}
use hello_websocket.Codec.Wire.Encodes.{EncodesResults, assign_all, EncodesKv}
use hello_websocket.Prelude.{
  subst₂, All-append, ℕ, suc, ◌*◌, ◌≤◌, ◌≡◌, ap, ◌∙◌, sym, List, [], ◌∷◌, ◌++◌, append_assoc,
  append-nil, arith, length, length-append, All, subst,
}
use hello_websocket.Codec.KvMap.Laws.{assign-append, Below, Above}
use hello_websocket.Codec.Reader.{read_entries, read_counted, read_kv}
use hello_websocket.Codec.Message.{EchoResult, read_results, read_result_list}
use hello_websocket.Codec.Wire.{IsSorted, Text, KvMap, IsEntry, IsResult, wire_string, wire_entries}
use hello_websocket.Codec.Wire.Reads.{
  Reads, Reads-bind, Reads-string, Reads-u32, Reads-u8, Reads-i64,
}

length-wire_entries : (m : KvMap) → 8 * length m ≤ length (wire_entries m)
length-wire_entries [] = omega arith
length-wire_entries (e ∷ m) = omega (
  arith,
  length-append (wire_string e.0) (wire_string e.1 ++ wire_entries m),
  length-append (wire_string e.1) (wire_entries m),
  length-wire_entries m,
)

-- Every key of `acc` is below every key of `es`.
abbrev Before : KvMap → KvMap → Type 0
Before acc [] = Unit {0}
Before acc (e ∷ es) = Below e.0 acc × Before acc es

Before-snoc :
    (acc es : KvMap) (e : Text × Text) → Before acc es → Above e.0 es → Before (acc ++ e ∷ []) es
Before-snoc acc [] e h a = tt
Before-snoc acc (f ∷ es) e h a =
    (All-append _ acc (e ∷ []) h.0 (a.0, tt), Before-snoc acc es e h.1 a.1)

Before-nil : (es : KvMap) → Before [] es
Before-nil [] = tt
Before-nil (e ∷ es) = (tt, Before-nil es)

assign_all-append : (es acc : KvMap) → IsSorted es → Before acc es → assign_all acc es ≡ acc ++ es
assign_all-append [] acc s b = sym (append-nil acc)
assign_all-append (e ∷ es) acc s b =
    ap (λ (a : KvMap). assign_all a es) (assign-append e.0 e.1 acc b.0)
    ∙ assign_all-append es (acc ++ e ∷ []) s.1 (Before-snoc acc es e b.1 s.0)
    ∙ append_assoc acc (e ∷ []) es

-- Ascending entries are the map that they make.
pub assign_all-sorted : (m : KvMap) → IsSorted m → assign_all [] m ≡ m
assign_all-sorted m s = assign_all-append m [] s (Before-nil m)

Reads-entries :
    (es acc : KvMap)
    → All IsEntry es
    → Reads (read_entries (length es) acc) (wire_entries es) (assign_all acc es)
unfolding read_entries
Reads-entries [] acc h = record { run = λ pre rest. rw (append-nil pre) }
Reads-entries (e ∷ es) acc h =
    Reads-bind _ (Reads-string e.0 h.0.0)
      (Reads-bind _ (Reads-string e.1 h.0.1) (Reads-entries es (assign e.0 e.1 acc) h.1))

Reads-counted :
    (es : KvMap)
    → All IsEntry es
    → Reads (read_counted (length es)) (wire_entries es) (assign_all [] es)
unfolding read_counted
Reads-counted es h = record {
  run = λ pre rest. ground (
    arith,
    length-append pre (wire_entries es ++ rest),
    length-append (wire_entries es) rest,
    length-wire_entries es,
    (Reads-entries es [] h).run pre rest,
  );
}

pub Reads-kv : (m : KvMap) (x : List ℕ) → EncodesKv m x → Reads read_kv x m
unfolding read_kv
Reads-kv m x (es, ex, em, h, few) =
    subst₂ (λ (t : List ℕ) (a : KvMap). Reads read_kv t a) (sym ex) (sym em)
      (Reads-bind read_counted (Reads-u32 (length es) few) (Reads-counted es h))

length-EncodesResults :
    (rs : List EchoResult) (x : List ℕ) → EncodesResults rs x → 13 * length rs ≤ length x
length-EncodesResults [] x h = omega arith
length-EncodesResults (r ∷ rs) x (y, z, ex, (w, ey, (es, ew, em, valid, few)), hs) = omega (
  arith,
  ap length ex,
  length-append y z,
  ap length ey,
  ap length ew,
  length-EncodesResults rs z hs,
)

Reads-results :
    (rs acc : List EchoResult) (x : List ℕ)
    → All IsResult rs
    → EncodesResults rs x
    → Reads (read_results (length rs) acc) x (acc ++ rs)
unfolding read_results
Reads-results [] acc x h e = record { run = λ pre rest. rw (e, append-nil acc, append-nil pre) }
Reads-results (r ∷ rs) acc x h (y, z, ex, (w, ey, ew), hs) =
    subst (λ (t : List ℕ). Reads (read_results (suc (length rs)) acc) t (acc ++ r ∷ rs))
      (sym (ex ∙ ap (λ (t : List ℕ). t ++ z) ey))
      (Reads-bind _ (Reads-i64 r.idx h.0.idx) (
        Reads-bind _ (Reads-u8 r.type) (
          Reads-bind _ (Reads-kv r.kv w ew) (
            subst (λ (t : List EchoResult). Reads (read_results (length rs) (acc ++ r ∷ [])) z t)
              (append_assoc acc (r ∷ []) rs) (Reads-results rs (acc ++ r ∷ []) z h.1 hs)))))

pub Reads-result_list :
    (rs : List EchoResult) (x : List ℕ)
    → All IsResult rs
    → EncodesResults rs x
    → Reads (read_result_list (length rs)) x rs
unfolding read_result_list
Reads-result_list rs x h e = record {
  run = λ pre rest. ground (
    arith,
    length-append pre (x ++ rest),
    length-append x rest,
    length-EncodesResults rs x e,
    (Reads-results rs [] x h e).run pre rest,
  );
}
