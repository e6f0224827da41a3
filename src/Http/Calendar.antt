-- ===== src/Http/Calendar.antt =====
-- src/http/series.rs, `civil` and `instant`: the date of a day, and a moment in RFC 3339.
use tessaridb_sdk_rust.Common.{
  ℕ, zero, suc, ◌+◌, ◌-◌, ◌*◌, ◌/◌, ◌%◌, ◌^◌, Bool, true, Option, none, some, [], ◌∷◌, ◌++◌, ℤ, pos,
  negsuc, Result, ok, err, ltb, leb, length, if◌then◌else◌,
}
use tessaridb_sdk_rust.Common.Utf8.{Text, literal}
use tessaridb_sdk_rust.Error.{Error, not_an_event}
use tessaridb_sdk_rust.Query.Decimal.{decimal}

-- `div_euclid` and `rem_euclid` by a positive number, and sums and products with one.
unfoldable pub div_euclid : ℤ → ℕ → ℤ
div_euclid (pos n) k = pos (n / k)
div_euclid (negsuc n) k = negsuc (n / k)

unfoldable pub rem_euclid : ℤ → ℕ → ℕ
rem_euclid (pos n) k = n % k
rem_euclid (negsuc n) k = k - 1 - n % k

unfoldable pub plus : ℤ → ℕ → ℤ
plus (pos n) m = pos (n + m)
plus (negsuc n) m = if ltb n m then pos (m - (n + 1)) else negsuc (n - m)

unfoldable pub times : ℤ → ℕ → ℤ
times (pos n) k = pos (n * k)
times (negsuc n) k = negsuc ((n + 1) * k - 1)

-- A day inside an era of 400 years, which begin with March.
unfoldable pub year_of_era : ℕ → ℕ
year_of_era of_era = (of_era - of_era / 1_460 + of_era / 36_524 - of_era / 146_096) / 365

unfoldable pub day_of_year : ℕ → ℕ
unfolding year_of_era
day_of_year of_era =
    of_era - (year_of_era of_era * 365 + year_of_era of_era / 4 - year_of_era of_era / 100)

unfoldable pub shifted_month : ℕ → ℕ
shifted_month of_year = (of_year * 5 + 2) / 153

unfoldable pub day_of_month : ℕ → ℕ
unfolding shifted_month
day_of_month of_year = of_year - (shifted_month of_year * 153 + 2) / 5 + 1

unfoldable pub month_of : ℕ → ℕ
month_of shifted = if ltb shifted 10 then shifted + 3 else shifted - 9

-- January and February belong to the year that began with the March before.
unfoldable pub into_next : ℕ → ℕ
into_next month = if leb month 2 then 1 else 0

unfoldable pub date_in : ℤ → ℕ → ℤ × ℕ × ℕ
unfolding day_of_year shifted_month day_of_month month_of into_next
date_in era of_era =
    let month = month_of (shifted_month (day_of_year of_era)) in
    (
      plus (times era 400) (year_of_era of_era + into_next month),
      month,
      day_of_month (day_of_year of_era),
    )

-- A sum of an `i64` with a positive number is one too.
unfoldable pub fits : ℤ → Bool
fits (pos n) = ltb n (2 ^ 63)
fits (negsuc n) = true

-- Where the first sum does not overflow, the other checked operations do not either: they are on
-- numbers of less than 146 097, or closer to zero than that sum.
unfoldable pub civil : ℤ → Option (ℤ × ℕ × ℕ)
unfolding div_euclid rem_euclid plus date_in fits
civil days =
    let shifted = plus days 719_468 in
    if fits shifted
    then some (date_in (div_euclid shifted 146_097) (rem_euclid shifted 146_097))
    else none

unfoldable pub zeros : ℕ → Text
zeros zero = []
zeros (suc n) = b'0' ∷ zeros n

-- `{n:0width}`
unfoldable pub padded : ℕ → ℕ → Text
unfolding zeros
padded width n = zeros (width - length (decimal n)) ++ decimal n

unfoldable pub fraction : ℕ → Text
unfolding padded
fraction nanos = if ltb 0 nanos then b'.' ∷ padded 9 nanos else []

unfoldable pub moment : ℕ → ℕ → ℕ → ℕ → ℕ → Text
unfolding padded fraction
moment year month day of_day nanos =
    padded 4 year
    ++ b'-'
      ∷ (padded 2 month
          ++ b'-'
            ∷ (padded 2 day
                ++ b'T'
                  ∷ (padded 2 (of_day / 3_600)
                      ++ b':'
                        ∷ (padded 2 (of_day % 3_600 / 60)
                            ++ b':'
                              ∷ (padded 2 (of_day % 60) ++ (fraction nanos ++ literal "Z"))))))

unfoldable pub outside_years : Error
outside_years = not_an_event (literal "a datetime outside the years 0 to 9999")

unfoldable pub instant_on : Option (ℤ × ℕ × ℕ) → ℕ → ℕ → Result Error Text
unfolding moment outside_years
instant_on none of_day nanos = err outside_years
instant_on (some (negsuc year, month, day)) of_day nanos = err outside_years
instant_on (some (pos year, month, day)) of_day nanos =
    if leb year 9_999 then ok (moment year month day of_day nanos) else err outside_years

unfoldable pub instant : ℤ → ℕ → Result Error Text
unfolding civil div_euclid rem_euclid instant_on
instant seconds nanos =
    instant_on (civil (div_euclid seconds 86_400)) (rem_euclid seconds 86_400) nanos
