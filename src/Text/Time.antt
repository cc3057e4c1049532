-- ===== src/Text/Time.antt =====
-- `is_leap` and `convert_time` of util.c.
pub mod Fields
pub mod Difference
use ftp_server.Prelude.{
  ℕ, zero, suc, ◌+◌, ◌-◌, ◌*◌, ◌/◌, ◌%◌, Bool, true, false, ◌&&◌, List, [], ◌∷◌, ltb, ◌==◌,
  if◌then◌else◌, ℤ, pos, negsuc, ◌+ℤ◌, ◌/ℤ◌, ◌%ℤ◌, to_int,
}

pub record Tm : Type 0 where
  pub tm_sec : ℤ
  pub tm_min : ℤ
  pub tm_hour : ℤ
  pub tm_mday : ℤ
  pub tm_mon : ℕ
  pub tm_year : ℕ
  pub tm_wday : ℤ
  pub tm_yday : ℤ

-- `if( year % n )` holds where the remainder is not 0. Where no test holds the function returns
-- nothing, and its caller reads `fallen_off year`.
unfoldable pub is_leap : (ℕ → Bool) → ℕ → Bool
is_leap fallen_off year =
    if year % 400 == 0
    then if year % 100 == 0 then if year % 4 == 0 then fallen_off year else true else false
    else true

module _ (leap : ℕ → Bool) where
  unfoldable pub year_length : ℕ → ℕ
  year_length year = if leap year then 366 else 365

  -- while( days >= … ) year++; on its fuel
  unfoldable pub find_year : ℕ → ℕ → ℕ → ℕ × ℕ
  unfolding year_length
  find_year zero year days = (year, days)
  find_year (suc f) year days =
      let later = find_year f (suc year) (days - year_length year) in
      if ltb days (year_length year) then (year, days) else later

  abbrev pub days_in_month : List ℕ
  days_in_month = 31 ∷ 28 ∷ 31 ∷ 30 ∷ 31 ∷ 30 ∷ 31 ∷ 31 ∷ 30 ∷ 31 ∷ 30 ∷ 31 ∷ []

  -- while( 1 ), over the table from `month` on
  unfoldable pub find_month : ℕ → List ℕ → ℕ → ℕ → ℕ × ℕ
  find_month year [] month days = (month, days)
  find_month year (n ∷ rest) month days =
      let i = if month == 1 && leap year then n + 1 else n in
      let later = find_month year rest (suc month) (days - i) in
      if ltb days i then (month, days) else later

  -- The year, the day in it, the month and the day in it, each from 0. The loops are not entered
  -- before 1970.
  unfoldable pub find_date : ℤ → ℕ × ℤ × ℕ × ℤ
  unfolding find_year find_month
  find_date (negsuc n) = (1970, negsuc n, 0, negsuc n)
  find_date (pos days) =
      let (year, yday) = find_year (suc days) 1970 days in
      let (month, mday) = find_month year days_in_month 0 yday in (year, pos yday, month, pos mday)

  unfoldable pub convert_time : ℤ → Tm
  unfolding find_date
  convert_time time =
      let days = to_int (time /ℤ 86400) in
      let (year, yday, month, mday) = find_date days in
      record {
        tm_sec = time %ℤ 60;
        tm_min = (time /ℤ 60) %ℤ 60;
        tm_hour = (time /ℤ 3600) %ℤ 24;
        tm_mday = mday +ℤ pos 1;
        tm_mon = month;
        tm_year = year - 1900;
        tm_wday = (days +ℤ pos 4) %ℤ 7;
        tm_yday = yday;
      }
