-- ===== src/PageStack/Clock.antt =====
-- The number that `PushPageToStack` gives to a page: the seconds since 2000.
pub mod Seconds
use elfloader3_elfs_archive.Prelude.{
  ℕ, ◌+◌, ◌-◌, ◌*◌, ◌/◌, ◌%◌, ◌^◌, List, [], ◌∷◌, Out, bad_index, or_fault, ◌>>=◌, ok, get_elem?,
  ltb, if◌then◌else◌, ◌||◌,
}

abbrev pub days_before_month : List ℕ
days_before_month = 0 ∷ 31 ∷ 59 ∷ 90 ∷ 120 ∷ 151 ∷ 181 ∷ 212 ∷ 243 ∷ 273 ∷ 304 ∷ 334 ∷ 365 ∷ []

-- TDate and TTime of the phone.
pub record DateTime : Type 0 where
  pub year : ℕ
  pub month : ℕ
  pub day : ℕ
  pub hour : ℕ
  pub min : ℕ
  pub sec : ℕ

-- `iday` as the days, and then as the seconds, in an unsigned long of 32 bits. The day is at least 1.
unfoldable pub page_id : DateTime → Out ℕ
page_id t = do
  before ← or_fault bad_index (get_elem? days_before_month (t.month - 1))
  let year = t.year % 100
  let days =
      365 * year
      + before
      + (t.day - 1)
      + year / 4
      + (if ltb 2 t.month || ltb 0 (year % 4) then 1 else 0)
  ok ((t.sec + 60 * (t.min + 60 * (t.hour + 24 * days))) % 2 ^ 32)
