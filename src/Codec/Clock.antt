-- ===== src/Codec/Clock.antt =====
-- The texts that `nowISO` and `log` of hello-websocket-cpp/common/codec.hpp make of the time in UTC.
-- The clock and the console are the system's: the time is an argument, and `log_line` is what `log`
-- writes.
pub mod Iso
use hello_websocket.Prelude.{ℕ, ◌+◌, ◌/◌, ◌%◌, List, [], ◌∷◌, ◌++◌, pos, codes}
use hello_websocket.Codec.KvMap.{Text}
use hello_websocket.Hash.{to_string}

-- `std::tm`, the fields that are used: years since 1900, months since January.
pub record Tm : Type 0 where
  pub tm_year : ℕ
  pub tm_mon : ℕ
  pub tm_mday : ℕ
  pub tm_hour : ℕ
  pub tm_min : ℕ
  pub tm_sec : ℕ

-- Two decimal digits, for a number below 100.
unfoldable pub two_digits : ℕ → Text
two_digits n = (48 + n / 10 % 10) ∷ (48 + n % 10) ∷ []

-- `%Y-%m-%d` and `%H:%M:%S` of `std::put_time`.
unfoldable pub put_date : Tm → Text
unfolding two_digits
put_date tm =
    to_string (pos (1900 + tm.tm_year))
    ++ (45 ∷ two_digits (1 + tm.tm_mon) ++ (45 ∷ two_digits tm.tm_mday))

unfoldable pub put_clock : Tm → Text
unfolding two_digits
put_clock tm = two_digits tm.tm_hour ++ (58 ∷ two_digits tm.tm_min ++ (58 ∷ two_digits tm.tm_sec))

unfoldable pub now_iso : Tm → Text
unfolding put_date put_clock
now_iso tm = put_date tm ++ (codes "T" ++ (put_clock tm ++ codes "Z"))

unfoldable pub log_line : Text → Text → Tm → Text
unfolding put_date put_clock
log_line name msg tm =
    codes "["
    ++ put_date tm
    ++ codes " "
    ++ put_clock tm
    ++ codes "] [INFO] ["
    ++ name
    ++ codes "] "
    ++ msg
    ++ codes "\n"
