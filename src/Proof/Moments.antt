-- ===== src/Proof/Moments.antt =====
-- The order of the times that `_to_iso_z` writes, src/helix_sdk/proof.py.
use helix_sdk_py.Base.{
  List, Option, [], ap, ap₂, arith, negsuc, none, pos, refl, some, suc, ℕ, ℤ, ◌%◌, ◌*◌, ◌++◌, ◌+◌,
  ◌/◌, ◌<◌, ◌∙◌, ◌∷◌, ◌≡◌, ◌≤◌,
}
use helix_sdk_py.Proof.{
  DateTime, at_clock, clock_of, iso_text, three_digits, to_iso_z, to_utc, two_digits,
}
use helix_sdk_py.Proof.Calendar.{
  Clock, IsDate, days_in_month-le, seconds_earlier, seconds_earlier-lt,
  seconds_earlier-seconds_later, seconds_later, seconds_later-lt, seconds_later-seconds_earlier,
}
use helix_sdk_py.Text.{Text}
use helix_sdk_py.Text.Decimal.{decimal, decimal-four}
use helix_sdk_py.Text.Order.{text_le}

-- The fields of a time down to the millisecond, from the largest on.
abbrev pub fields : DateTime → List ℕ
fields t = t.year ∷ t.month ∷ t.day ∷ t.hour ∷ t.minute ∷ t.second ∷ t.microsecond / 1000 ∷ []

-- A date of the calendar with a year of four digits, and a time of the day.
pub record IsTime (t : DateTime) : Type 0 where
  pub year_from : 1000 ≤ t.year
  pub year : t.year < 10000
  pub date : IsDate t.year t.month t.day
  pub hour : t.hour < 24
  pub minute : t.minute < 60
  pub second : t.second < 60
  pub microsecond : t.microsecond < 1000000

-- A zone less than a day from UTC, or none.
abbrev pub IsZone : Option ℤ → Type 0
IsZone none = Unit
IsZone (some (pos n)) = n < 86400
IsZone (some (negsuc n)) = suc n < 86400

abbrev local_clock : ℤ → Clock → Clock
local_clock (pos n) c = seconds_later n c
local_clock (negsuc n) c = seconds_earlier (suc n) c

-- How the fields of a time in UTC read in a zone; a time without a zone is one in UTC.
unfoldable pub in_zone : Option ℤ → DateTime → DateTime
unfolding seconds_later seconds_earlier
in_zone none u = record u { utc_offset = none }
in_zone (some o) u = at_clock (local_clock o (clock_of u)) (some o) u

two_digits-le :
    (m n : ℕ) (c : ℕ) (s t : Text) (xs ys : List ℕ)
    → m < 100
    → n < 100
    → text_le s t ≡ text_le xs ys
    → text_le (two_digits m ++ c ∷ s) (two_digits n ++ c ∷ t) ≡ text_le (m ∷ xs) (n ∷ ys)
unfolding two_digits text_le
two_digits-le m n c s t xs ys h k e = rw e (ground arith)

three_digits-le :
    (m n : ℕ) (c : ℕ)
    → m < 1000
    → n < 1000
    → text_le (three_digits m ++ c ∷ []) (three_digits n ++ c ∷ []) ≡ text_le (m ∷ []) (n ∷ [])
unfolding three_digits text_le
three_digits-le m n c h k = ground arith

year-le :
    (m n : ℕ) (s t : Text) (xs ys : List ℕ)
    → 1000 ≤ m
    → m < 10000
    → 1000 ≤ n
    → n < 10000
    → text_le s t ≡ text_le xs ys
    → text_le (decimal m ++ b'-' ∷ s) (decimal n ++ b'-' ∷ t) ≡ text_le (m ∷ xs) (n ∷ ys)
unfolding text_le
year-le m n s t xs ys m_from m_to n_from n_to e =
    rw (decimal-four m m_from m_to, decimal-four n n_from n_to, e) (ground arith)

-- The text of a time, its parts from the left to the right.
written : DateTime → Text
written t =
    decimal t.year
    ++ (b'-'
        ∷ (two_digits t.month
            ++ (b'-'
                ∷ (two_digits t.day
                    ++ (b'T'
                        ∷ (two_digits t.hour
                            ++ (b':'
                                ∷ (two_digits t.minute
                                    ++ (b':'
                                        ∷ (two_digits t.second
                                            ++ (b'.'
                                                ∷ (three_digits (t.microsecond / 1000)
                                                    ++ (b'Z' ∷ [])))))))))))))

clock_of-at_clock :
    (c : Clock) (offset : Option ℤ) (t : DateTime)
    → c.1 < 86400
    → clock_of (at_clock c offset t) ≡ c
clock_of-at_clock ((y, m, d), s) offset t h =
    let seconds : s / 3600 * 3600 + s / 60 % 60 * 60 + s % 60 ≡ s = omega arith in
    ap (λ x. ((y, m, d), x)) seconds

at_time : ℕ → ℕ → ℕ → DateTime → DateTime
at_time hour minute second t = record t {
  hour = hour;
  minute = minute;
  second = second;
  utc_offset = some (pos 0);
}

at_clock-clock_of :
    (t : DateTime)
    → IsTime t
    → at_clock (clock_of t) (some (pos 0)) t ≡ at_time t.hour t.minute t.second t
unfolding at_time
at_clock-clock_of t h =
    let s : ℕ = t.hour * 3600 + t.minute * 60 + t.second in
    let hours : s / 3600 ≡ t.hour = omega (arith, h.minute, h.second) in
    let minutes : s / 60 % 60 ≡ t.minute = omega (arith, h.minute, h.second) in
    let seconds : s % 60 ≡ t.second = omega (arith, h.second) in
    ap₂ (λ x y. at_time x y (s % 60) t) hours minutes
    ∙ ap (λ x. at_time t.hour t.minute x t) seconds

clock_of-lt : (t : DateTime) → IsTime t → (clock_of t).1 < 86400
clock_of-lt t h = omega (arith, h.hour, h.minute, h.second)

to_utc-in_zone :
    (offset : Option ℤ) (u : DateTime)
    → IsZone offset
    → IsTime u
    → to_utc (in_zone offset u) ≡ at_time u.hour u.minute u.second u
unfolding to_utc in_zone at_time
to_utc-in_zone none u h k = refl
to_utc-in_zone (some (pos n)) u h k =
    ap (λ c. at_clock (seconds_earlier n c) (some (pos 0)) u)
      (clock_of-at_clock (seconds_later n (clock_of u)) (some (pos n)) u
        (seconds_later-lt n (u.year, u.month, u.day) _ h (clock_of-lt u k)))
    ∙ ap (λ c. at_clock c (some (pos 0)) u)
        (seconds_earlier-seconds_later n u.year u.month u.day _ h (clock_of-lt u k) k.date)
    ∙ at_clock-clock_of u k
to_utc-in_zone (some (negsuc n)) u h k =
    ap (λ c. at_clock (seconds_later (suc n) c) (some (pos 0)) u)
      (clock_of-at_clock (seconds_earlier (suc n) (clock_of u)) (some (negsuc n)) u
        (seconds_earlier-lt (suc n) (u.year, u.month, u.day) _ h (clock_of-lt u k)))
    ∙ ap (λ c. at_clock c (some (pos 0)) u)
        (seconds_later-seconds_earlier (suc n) u.year u.month u.day _ h (clock_of-lt u k)
          (omega (arith, k.year_from)) k.date)
    ∙ at_clock-clock_of u k

to_iso_z-written :
    (offset : Option ℤ) (u : DateTime)
    → IsZone offset
    → IsTime u
    → to_iso_z (in_zone offset u) ≡ written u
unfolding to_iso_z iso_text written at_time
to_iso_z-written offset u h k =
    ap iso_text (to_utc-in_zone offset u h k) ∙ rw (decimal-four u.year k.year_from k.year) refl

day-lt : (t : DateTime) → IsTime t → t.day < 100
day-lt t h = omega (arith, h.date.day, days_in_month-le t.year t.month)

written-le :
    (s t : DateTime)
    → IsTime s
    → IsTime t
    → text_le (written s) (written t) ≡ text_le (fields s) (fields t)
unfolding written
written-le s t h k = year-le s.year t.year _ _ _ _ h.year_from h.year k.year_from k.year (
    two_digits-le s.month t.month b'-' _ _ _ _ (omega (arith, h.date.month))
      (omega (arith, k.date.month))
      (two_digits-le s.day t.day b'T' _ _ _ _ (day-lt s h) (day-lt t k) (
        two_digits-le s.hour t.hour b':' _ _ _ _ (omega (arith, h.hour)) (omega (arith, k.hour)) (
          two_digits-le s.minute t.minute b':' _ _ _ _ (omega (arith, h.minute))
            (omega (arith, k.minute))
            (two_digits-le s.second t.second b'.' _ _ _ _ (omega (arith, h.second))
              (omega (arith, k.second))
              (three_digits-le (s.microsecond / 1000) (t.microsecond / 1000) b'Z'
                (omega (arith, h.microsecond)) (omega (arith, k.microsecond))))))))

-- Times of the calendar, in any zones less than a day from UTC or without one, which counts as UTC,
-- are written so that the order of the texts is the order of their fields in UTC, down to the
-- millisecond, where their years in UTC are from 1000 to 9999.
pub to_iso_z-le :
    (offset offset' : Option ℤ) (s t : DateTime)
    → IsZone offset
    → IsZone offset'
    → IsTime s
    → IsTime t
    → text_le (to_iso_z (in_zone offset s)) (to_iso_z (in_zone offset' t))
      ≡ text_le (fields s) (fields t)
to_iso_z-le offset offset' s t z z' h k =
    rw (to_iso_z-written offset s z h, to_iso_z-written offset' t z' k) (written-le s t h k)
