-- ===== src/Codec/Clock/Iso.antt =====
-- The ISO time read back.
use hello_websocket.Transport.Http.{equal_text}
use hello_websocket.Prelude.{
  sym, subst, ℕ, suc, ◌+◌, ◌-◌, ◌*◌, ◌/◌, ◌%◌, ◌<◌, ◌≤◌, ◌≡◌, refl, ap, ◌∙◌, List, [], ◌∷◌, ◌++◌,
  length, Option, none, some, pos, codes, arith, ge→ltb, lt→ltb, if◌then◌else◌,
}
use hello_websocket.Codec.KvMap.{Text}
use hello_websocket.Codec.Wire.{IsText}
use hello_websocket.Hash.{decimal, to_string}
use hello_websocket.Hash.Digits.{IsText-ascii}
use hello_websocket.Codec.Clock.{Tm, two_digits, put_date, put_clock, now_iso}

-- A time from 1900 to 9999 as `gmtime_r` breaks it down, the second 60 being a leap second.
pub record IsTm (tm : Tm) : Type 0 where
  pub year : 1900 + tm.tm_year ≤ 9999
  pub month : tm.tm_mon < 12
  pub day : (1 ≤ tm.tm_mday) × (tm.tm_mday ≤ 31)
  pub hour : tm.tm_hour < 24
  pub minute : tm.tm_min < 60
  pub second : tm.tm_sec ≤ 60

-- A four-digit number.
four_digits : ℕ → Text
four_digits n = (48 + n / 1000) ∷ (48 + n / 100 % 10) ∷ (48 + n / 10 % 10) ∷ (48 + n % 10) ∷ []

module _ (fuel n : ℕ) (after : List ℕ) where
  decimal_more : 10 ≤ n → decimal (suc fuel) n after ≡ decimal fuel (n / 10) ((48 + n % 10) ∷ after)
  unfolding decimal
  decimal_more h = rw (ge→ltb n 10 h, decimal) refl

  decimal_last : n < 10 → decimal (suc fuel) n after ≡ (48 + n % 10) ∷ after
  unfolding decimal
  decimal_last h = rw (lt→ltb n 10 h, decimal) refl

year_digits : (n : ℕ) → 1900 ≤ n → n ≤ 9999 → to_string (pos n) ≡ four_digits n
unfolding to_string four_digits
year_digits n low high =
    decimal_more 19 n [] (omega arith)
    ∙ decimal_more 18 (n / 10) _ (omega arith)
    ∙ decimal_more 17 (n / 10 / 10) _ (omega arith)
    ∙ decimal_last 16 (n / 10 / 10 / 10) _ (omega arith)
    ∙ ap (λ (a : ℕ). (48 + a) ∷ (48 + n / 10 / 10 % 10) ∷ (48 + n / 10 % 10) ∷ (48 + n % 10) ∷ [])
        {y = n / 1000} (omega arith)
    ∙ ap (λ (a : ℕ). (48 + n / 1000) ∷ (48 + a % 10) ∷ (48 + n / 10 % 10) ∷ (48 + n % 10) ∷ [])
        (omega arith)

-- A reader of the format of RFC 3339 with whole seconds in UTC.
abbrev pub read_two : ℕ → ℕ → ℕ
read_two a b = (a - 48) * 10 + (b - 48)

abbrev pub read_iso : Text → Option Tm
read_iso
      (y0 ∷ y1 ∷ y2 ∷ y3 ∷ a ∷ m0 ∷ m1 ∷ b ∷ d0 ∷ d1 ∷ c ∷ h0 ∷ h1 ∷ d ∷ n0 ∷ n1 ∷ e ∷ s0 ∷ s1 ∷ z
        ∷ []) =
    if equal_text (a ∷ b ∷ c ∷ d ∷ e ∷ z ∷ []) (codes "--T::Z")
    then some (record {
      tm_year = read_two y0 y1 * 100 + read_two y2 y3 - 1900;
      tm_mon = read_two m0 m1 - 1;
      tm_mday = read_two d0 d1;
      tm_hour = read_two h0 h1;
      tm_min = read_two n0 n1;
      tm_sec = read_two s0 s1;
    })
    else none
read_iso text = none

-- The twenty characters of the time.
iso_text : Tm → Text
iso_text tm =
    four_digits (1900 + tm.tm_year)
    ++ (45 ∷ two_digits (1 + tm.tm_mon) ++ (45 ∷ two_digits tm.tm_mday))
    ++ (84 ∷ two_digits tm.tm_hour
        ++ (58 ∷ two_digits tm.tm_min ++ (58 ∷ two_digits tm.tm_sec ++ 90 ∷ [])))

now_iso-iso_text : (tm : Tm) → 1900 + tm.tm_year ≤ 9999 → now_iso tm ≡ iso_text tm
unfolding now_iso put_date put_clock iso_text two_digits four_digits
now_iso-iso_text tm h =
    ap
      (λ (y : Text).
        y
        ++ (45 ∷ two_digits (1 + tm.tm_mon) ++ (45 ∷ two_digits tm.tm_mday))
        ++ (codes "T" ++ (put_clock tm ++ codes "Z")))
      (year_digits (1900 + tm.tm_year) (omega arith) h)

same_tm :
    (t u : Tm)
    → t.tm_year ≡ u.tm_year
    → t.tm_mon ≡ u.tm_mon
    → t.tm_mday ≡ u.tm_mday
    → t.tm_hour ≡ u.tm_hour
    → t.tm_min ≡ u.tm_min
    → t.tm_sec ≡ u.tm_sec
    → t ≡ u
same_tm t u e0 e1 e2 e3 e4 e5 = cc

-- For a time from 1900 to 9999, `nowISO` writes twenty characters, a text of the protocol, from
-- which a reader of RFC 3339 gets the time back.
pub read_iso-now_iso :
    (tm : Tm)
    → IsTm tm
    → (read_iso (now_iso tm) ≡ some tm) × IsText (now_iso tm) × (length (now_iso tm) ≡ 20)
unfolding iso_text four_digits two_digits equal_text
read_iso-now_iso tm h =
    let whole = now_iso-iso_text tm h.year in
    (
      ap read_iso whole
          ∙ ap some (
              same_tm _ tm (omega (arith, h.year)) (omega (arith, h.month)) (omega (arith, h.day.1))
                (omega (arith, h.hour)) (omega (arith, h.minute)) (omega (arith, h.second))),
      subst IsText (sym whole) (IsText-ascii (iso_text tm) (omega (arith, h.year)) (omega arith)),
      ap length whole,
    )
