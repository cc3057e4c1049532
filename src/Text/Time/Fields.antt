-- ===== src/Text/Time/Fields.antt =====
-- util.c, `convert_time`: the fields are those of the time that they are computed from.
use ftp_server.Prelude.{
  pos, ℕ, zero, suc, ◌+◌, ◌-◌, ◌*◌, ◌/◌, ◌<◌, ◌≤◌, ◌≡◌, Bool, ◌&&◌, List, [], ◌∷◌, ◌==◌,
  if◌then◌else◌, arith, length,
}
use ftp_server.Text.Time.{Tm, year_length, days_in_month}

module _ (leap : ℕ → Bool) where
  -- The days of the `n` years from `year` on.
  abbrev pub years_days : ℕ → ℕ → ℕ
  years_days zero year = 0
  years_days (suc n) year = year_length leap year + years_days n (suc year)

  pub year_length_pos : (year : ℕ) → 1 ≤ year_length leap year
  unfolding year_length
  year_length_pos year = ground arith

  -- The year found is `n` years on, the days left fall in it, and none is lost.
  pub record IsYear (start days : ℕ) (r : ℕ × ℕ) : Type 0 where
    pub years : ℕ
    pub year : r.0 ≡ start + years
    pub sum : days ≡ years_days years start + r.1
    pub within : r.1 < year_length leap r.0

  -- The days of a month, with February's last in a leap year.
  abbrev pub month_length : ℕ → ℕ → ℕ → ℕ
  month_length year month n = if month == 1 && leap year then n + 1 else n

  -- The days of the first `k` months of the table.
  abbrev pub months_days : ℕ → ℕ → ℕ → List ℕ → ℕ
  months_days zero year month table = 0
  months_days (suc k) year month [] = 0
  months_days (suc k) year month (n ∷ table) =
      month_length year month n + months_days k year (suc month) table

  -- All the months of the table.
  abbrev all_days : ℕ → ℕ → List ℕ → ℕ
  all_days year month [] = 0
  all_days year month (n ∷ table) = month_length year month n + all_days year (suc month) table

  -- The month found is `k` months on, and none of the days is lost.
  pub record IsMonth (year start days : ℕ) (table : List ℕ) (r : ℕ × ℕ) : Type 0 where
    pub months : ℕ
    pub month : r.0 ≡ start + months
    pub in_table : months < length table
    pub sum : days ≡ months_days months year start table + r.1
    pub within :
        r.1 < months_days (suc months) year start table - months_days months year start table

  -- The fields of a converted time.
  pub record IsTime (time : ℕ) (tm : Tm) : Type 0 where
    pub hour : ℕ
    pub minute : ℕ
    pub second : ℕ
    pub day : ℕ
    pub month_day : ℕ
    pub of_hour : tm.tm_hour ≡ pos hour
    pub of_minute : tm.tm_min ≡ pos minute
    pub of_second : tm.tm_sec ≡ pos second
    pub of_day : tm.tm_yday ≡ pos day
    pub of_month_day : tm.tm_mday ≡ pos (month_day + 1)
    pub clock : time ≡ (time / 86400) * 86400 + hour * 3600 + minute * 60 + second
    pub seconds : second < 60
    pub minutes : minute < 60
    pub hours : hour < 24
    pub year : IsYear 1970 (time / 86400) (tm.tm_year + 1900, day)
    pub month : IsMonth (tm.tm_year + 1900) 0 day (days_in_month leap) (tm.tm_mon, month_day)
