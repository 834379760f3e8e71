-- ===== src/Proof/Calendar.antt =====
-- The days and seconds that `datetime.astimezone` moves a time by, for `_to_iso_z` of
-- src/helix_sdk/proof.py: the proleptic Gregorian calendar of Python's `datetime`.
use helix_sdk_py.Base.{
  Bool, Bool-cases, ap, ap₂, arith, false, if◌then◌else◌, inl, inr, leb, ltb, not, refl, sym, true,
  ℕ, ◌%◌, ◌&&◌, ◌+◌, ◌-◌, ◌<◌, ◌==◌, ◌||◌, ◌∙◌, ◌≡◌, ◌≤◌,
}

unfoldable pub is_leap : ℕ → Bool
is_leap y = y % 4 == 0 && not (y % 100 == 0) || y % 400 == 0

unfoldable pub days_in_month : ℕ → ℕ → ℕ
unfolding is_leap
days_in_month y m =
    if m == 2
    then if is_leap y then 29 else 28
    else if m == 4 || m == 6 || m == 9 || m == 11
    then 30
    else 31

-- A year, a month and a day, both from 1.
abbrev pub Date : Type 0
Date = ℕ × ℕ × ℕ

unfoldable pub next_day : Date → Date
next_day (y, m, d) =
    if d == days_in_month y m
    then if m == 12 then (y + 1, 1, 1) else (y, m + 1, 1)
    else (y, m, d + 1)

unfoldable pub previous_day : Date → Date
previous_day (y, m, d) =
    if d == 1
    then if m == 1 then (y - 1, 12, 31) else (y, m - 1, days_in_month y (m - 1))
    else (y, m, d - 1)

-- A date and the second of its day.
abbrev pub Clock : Type 0
Clock = Date × ℕ

-- The clock some seconds on, less than a day.
unfoldable pub seconds_later : ℕ → Clock → Clock
unfolding next_day
seconds_later n (date, s) =
    if ltb (s + n) 86400 then (date, s + n) else (next_day date, s + n - 86400)

-- The clock some seconds back, less than a day.
unfoldable pub seconds_earlier : ℕ → Clock → Clock
unfolding previous_day
seconds_earlier n (date, s) = if leb n s then (date, s - n) else (previous_day date, s + 86400 - n)

pub record IsDate (y m d : ℕ) : Type 0 where
  pub month_from : 1 ≤ m
  pub month : m ≤ 12
  pub day_from : 1 ≤ d
  pub day : d ≤ days_in_month y m

pub days_in_month-le : (y m : ℕ) → days_in_month y m ≤ 31
unfolding days_in_month
days_in_month-le y m = ground arith

december_days : (y : ℕ) → days_in_month y 12 ≡ 31
unfolding days_in_month
december_days y = refl

same_date : {y m d y' m' d' : ℕ} → y ≡ y' → m ≡ m' → d ≡ d' → Path Date (y, m, d) (y', m', d')
same_date {m = m} {d = d} {y' = y'} {m' = m'} e f g =
    ap (λ (x : ℕ). (x, m, d)) e ∙ ap₂ (λ (i j : ℕ). (y', i, j)) f g

previous_day-next_day : (y m d : ℕ) → IsDate y m d → previous_day (next_day (y, m, d)) ≡ (y, m, d)
unfolding next_day previous_day
previous_day-next_day y m d h =
    let m_from : 1 ≤ m = h.month_from in
    let d_from : 1 ≤ d = h.day_from in
    elim (Bool-cases (d == days_in_month y m)) [
      | inl last ↦ elim (Bool-cases (m == 12)) [
        | inl december ↦
            let month : m ≡ 12 = ground arith in
            let day : d ≡ days_in_month y m = ground arith in
            rw (next_day, last, december, previous_day)
              (same_date (omega arith) (sym month)
                (sym (day ∙ ap (days_in_month y) month ∙ december_days y)))
        | inr other ↦
            let back : m + 1 - 1 ≡ m = omega arith in
            let later_month : m + 1 == 1 ≡ false = ground arith in
            rw (next_day, last, other, previous_day, later_month, back)
              (same_date refl refl (ground arith))
      ]
      | inr more ↦
          let back : d + 1 - 1 ≡ d = omega arith in
          let later_day : d + 1 == 1 ≡ false = ground arith in
          rw (next_day, more, previous_day, later_day, back) refl
    ]

new_year : (y : ℕ) → 1 ≤ y → next_day (y - 1, 12, 31) ≡ (y, 1, 1)
unfolding next_day days_in_month
new_year y h = same_date (omega arith) refl refl

next_day-previous_day :
    (y m d : ℕ) → 1 ≤ y → IsDate y m d → next_day (previous_day (y, m, d)) ≡ (y, m, d)
unfolding next_day previous_day
next_day-previous_day y m d h_y h =
    let m_from : 1 ≤ m = h.month_from in
    let m_to : m ≤ 12 = h.month in
    let d_from : 1 ≤ d = h.day_from in
    let d_to : d ≤ days_in_month y m = h.day in
    elim (Bool-cases (d == 1)) [
      | inl first ↦ elim (Bool-cases (m == 1)) [
        | inl january ↦
            rw (previous_day, first, january)
              (new_year y h_y ∙ same_date refl (ground arith) (ground arith))
        | inr other ↦
            let back : m - 1 + 1 ≡ m = ground arith in
            let no_december : m - 1 == 12 ≡ false = ground arith in
            let last : days_in_month y (m - 1) == days_in_month y (m - 1) ≡ true = ground arith in
            rw (previous_day, first, other, next_day, last, no_december, back)
              (same_date refl refl (ground arith))
      ]
      | inr further ↦
          let back : d - 1 + 1 ≡ d = ground arith in
          let not_last : d - 1 == days_in_month y m ≡ false = ground arith in
          rw (previous_day, further, next_day, not_last, back) refl
    ]

pub seconds_earlier-seconds_later :
    (n : ℕ) (y m d s : ℕ)
    → n < 86400
    → s < 86400
    → IsDate y m d
    → seconds_earlier n (seconds_later n ((y, m, d), s)) ≡ ((y, m, d), s)
unfolding seconds_earlier seconds_later
seconds_earlier-seconds_later n y m d s n_to s_to h = elim (Bool-cases (ltb (s + n) 86400)) [
  | inl within ↦
      let enough : leb n (s + n) ≡ true = ground arith in
      let back : s + n - n ≡ s = omega arith in
      rw (seconds_later, within, seconds_earlier, enough, back) refl
  | inr beyond ↦
      let short : leb n (s + n - 86400) ≡ false = ground arith in
      let back : s + n - 86400 + 86400 - n ≡ s = ground arith in
      rw (seconds_later, beyond, seconds_earlier, short, back, previous_day-next_day y m d h) refl
]

pub seconds_later-seconds_earlier :
    (n : ℕ) (y m d s : ℕ)
    → n < 86400
    → s < 86400
    → 1 ≤ y
    → IsDate y m d
    → seconds_later n (seconds_earlier n ((y, m, d), s)) ≡ ((y, m, d), s)
unfolding seconds_earlier seconds_later
seconds_later-seconds_earlier n y m d s n_to s_to h_y h = elim (Bool-cases (leb n s)) [
  | inl within ↦
      let enough : ltb (s - n + n) 86400 ≡ true = ground arith in
      let back : s - n + n ≡ s = ground arith in
      rw (seconds_earlier, within, seconds_later, enough, back) refl
  | inr under ↦
      let over : ltb (s + 86400 - n + n) 86400 ≡ false = ground arith in
      let back : s + 86400 - n + n - 86400 ≡ s = ground arith in
      rw (seconds_earlier, under, seconds_later, over, back, next_day-previous_day y m d h_y h) refl
]

pub seconds_later-lt :
    (n : ℕ) (date : Date) (s : ℕ) → n < 86400 → s < 86400 → (seconds_later n (date, s)).1 < 86400
unfolding seconds_later
seconds_later-lt n date s h k = ground arith

pub seconds_earlier-lt :
    (n : ℕ) (date : Date) (s : ℕ) → n < 86400 → s < 86400 → (seconds_earlier n (date, s)).1 < 86400
unfolding seconds_earlier
seconds_earlier-lt n date s h k = ground arith
