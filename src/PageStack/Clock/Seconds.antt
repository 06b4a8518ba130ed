-- ===== src/PageStack/Clock/Seconds.antt =====
-- The id of a page as a count of seconds.
use elfloader3_elfs_archive.Prelude.{
  ℕ, zero, suc, ◌+◌, ◌-◌, ◌*◌, ◌/◌, ◌%◌, ◌^◌, ◌<◌, ◌≤◌, ◌≡◌, refl, ok, Option, none, some,
  get_elem?, ltb, leb, if◌then◌else◌, ◌||◌, ◌&&◌, ◌==◌, arith, Bool, true, false, all_below,
  all_below_sound, ==→eq, leb→le, ap,
}
use mathlib.Core.Path.{subst}
use elfloader3_elfs_archive.PageStack.Clock.{DateTime, days_before_month, page_id}

-- The calendar, month by month and year by year, of the years from 2000 to 2099.
unfoldable pub month_length : ℕ → ℕ → ℕ
month_length year month =
    if month == 2
    then (if year % 4 == 0 then 29 else 28)
    else if month == 4 || (month == 6 || (month == 9 || month == 11))
    then 30
    else 31

unfoldable pub days_of_months : ℕ → ℕ → ℕ
unfolding month_length
days_of_months year zero = 0
days_of_months year (suc m) = month_length year (suc m) + days_of_months year m

unfoldable pub days_of_years : ℕ → ℕ
unfolding days_of_months
days_of_years zero = 0
days_of_years (suc y) = days_of_months y 12 + days_of_years y

-- The seconds since the first of January 2000.
unfoldable pub seconds_since_2000 : DateTime → ℕ
unfolding days_of_years days_of_months
seconds_since_2000 t =
    t.sec
    + 60
      * (t.min
          + 60
            * (t.hour
                + 24
                  * (days_of_years (t.year - 2000)
                      + days_of_months (t.year - 2000) (t.month - 1)
                      + (t.day - 1))))

abbrev days_of_code : ℕ → ℕ → ℕ → ℕ
days_of_code year month before =
    365 * year + before + year / 4 + (if ltb 2 month || ltb 0 (year % 4) then 1 else 0)

abbrev entry_agrees : ℕ → ℕ → Option ℕ → Bool
entry_agrees year m none = false
entry_agrees year m (some before) =
    (days_of_code year (m + 1) before == days_of_years year + days_of_months year m)
    && leb (days_of_code year (m + 1) before) 36500

abbrev month_agrees : ℕ → ℕ → Bool
month_agrees year m = entry_agrees year m (get_elem? days_before_month m)

abbrev year_agrees : ℕ → Bool
year_agrees year = all_below 12 (month_agrees year)

table : all_below 100 year_agrees ≡ true
unfolding days_of_years days_of_months
table = refl

-- A time of the calendar between 2000 and 2099.
pub record IsDateTime (t : DateTime) : Type 0 where
  pub century : 2000 ≤ t.year
  pub year_bound : t.year < 2100
  pub month_low : 0 < t.month
  pub month_high : t.month ≤ 12
  pub day_low : 0 < t.day
  pub day_high : t.day ≤ month_length (t.year - 2000) t.month
  pub hour_bound : t.hour < 24
  pub min_bound : t.min < 60
  pub sec_bound : t.sec < 60

month_length_bound : (year month : ℕ) → month_length year month ≤ 31
unfolding month_length
month_length_bound year month = ground arith

abbrev Agrees : ℕ → ℕ → Option ℕ → Type 0
Agrees year m o =
    (before : ℕ) × (o ≡ some before)
    × (days_of_code year (m + 1) before ≡ days_of_years year + days_of_months year m)
    × (days_of_code year (m + 1) before ≤ 36500)

entry-Agrees : (year m : ℕ) (o : Option ℕ) → entry_agrees year m o ≡ true → Agrees year m o
entry-Agrees year m none h = absurd (ground (arith, h))
entry-Agrees year m (some before) h =
    let days = days_of_code year (m + 1) before in
    (
      before,
      refl,
      ==→eq days (days_of_years year + days_of_months year m) (ground (arith, h)),
      leb→le days 36500 (ground (arith, h)),
    )

seconds_fit :
    (year before leap day hour min sec total : ℕ)
    → 365 * year + before + year / 4 + leap ≡ total
    → total ≤ 36500
    → day ≤ 31
    → hour < 24
    → min < 60
    → sec < 60
    → (sec + 60 * (min + 60 * (hour + 24 * (365 * year + before + (day - 1) + year / 4 + leap))))
        % 2 ^ 32
      ≡ sec + 60 * (min + 60 * (hour + 24 * (total + (day - 1))))
seconds_fit year before leap day hour min sec total e bound hd hh hm hs = omega arith

-- At every time of the calendar from 2000 to 2099 the id of a page is the number of seconds since
-- the first of January 2000: the month table and the leap days are right, and the 32 bits are enough.
pub page_id-seconds : (t : DateTime) → IsDateTime t → page_id t ≡ ok (seconds_since_2000 t)
unfolding page_id seconds_since_2000
page_id-seconds t h =
    let year : t.year % 100 ≡ t.year - 2000 = omega (arith, h.century, h.year_bound) in
    let row =
      all_below_sound 100 year_agrees (t.year - 2000) table
        (omega (arith, h.century, h.year_bound)) in
    let cell =
      all_below_sound 12 (month_agrees (t.year - 2000)) (t.month - 1) row
        (omega (arith, h.month_low, h.month_high)) in
    let agrees =
      entry-Agrees (t.year - 2000) (t.month - 1) (get_elem? days_before_month (t.month - 1)) cell in
    let day : t.day ≤ 31 = omega (arith, h.day_high, month_length_bound (t.year - 2000) t.month) in
    let month : t.month - 1 + 1 ≡ t.month = omega (arith, h.month_low) in
    let leap = (if ltb 2 t.month || ltb 0 ((t.year - 2000) % 4) then 1 else 0) in
    let total = days_of_years (t.year - 2000) + days_of_months (t.year - 2000) (t.month - 1) in
    let same_days : 365 * (t.year - 2000) + agrees.0 + (t.year - 2000) / 4 + leap ≡ total =
      subst (λ m. days_of_code (t.year - 2000) m agrees.0 ≡ total) month agrees.2 in
    let fits : total ≤ 36500 = omega (arith, agrees.2, agrees.3) in
    rw (agrees.1, year)
      (ap ok (
        seconds_fit (t.year - 2000) agrees.0 leap t.day t.hour t.min t.sec total same_days fits day
          h.hour_bound h.min_bound h.sec_bound))
