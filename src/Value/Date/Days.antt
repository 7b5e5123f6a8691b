-- ===== src/Value/Date/Days.antt =====
-- value/date.rs: the day count and the date that it is counted from are inverse.
use refix.Base.{
  ℕ, ◌+◌, ◌-◌, ◌*◌, ◌/◌, ◌%◌, ◌≤◌, ◌<◌, ◌≡◌, refl, ap, ◌∙◌, some, arith, dec_lt, leb, if◌then◌else◌,
}
use refix.Base.Int.{ℤ, pos, negsuc, diff, ◌+ℤ◌, negate, scale, div_euclid, rem_euclid, checked_i64}
use refix.Value.Date.{Date, shifted_year, civil, from_days_since_epoch}

-- An era and a year of it.
pub data IsShifted (year month : ℕ) : ℤ → ℕ → Type 0 where
  in_era :
      (era year_of_era : ℕ)
      → year_of_era < 400
      → era * 400 + year_of_era + (if leb month 2 then 1 else 0) ≡ year
      → IsShifted year month (pos era) year_of_era
  before_eras : year ≡ 0 → month ≤ 2 → IsShifted year month (negsuc 0) 399

shifted_late : (d : Date) → 2 < d.month → shifted_year d ≡ pos d.year
shifted_late d h = ground arith

shifted_early : (d : Date) → d.month ≤ 2 → 0 < d.year → shifted_year d ≡ pos (d.year - 1)
unfolding diff
shifted_early d h k = ground arith

shifted_first : (d : Date) → d.month ≤ 2 → d.year ≡ 0 → shifted_year d ≡ negsuc 0
unfolding diff
shifted_first d h k = ground arith

pub shifted_year-IsShifted :
    (d : Date)
    → IsShifted d.year d.month (div_euclid (shifted_year d) 400) (rem_euclid (shifted_year d) 400)
unfolding div_euclid rem_euclid
shifted_year-IsShifted d = elim (dec_lt 2 d.month) [
  | yes late ↦
      rw (shifted_late d late) (in_era (d.year / 400) (d.year % 400) (omega arith) (ground arith))
  | no early ↦ elim (dec_lt 0 d.year) [
    | yes after ↦
        rw (shifted_early d (omega arith) after)
          (in_era ((d.year - 1) / 400) ((d.year - 1) % 400) (omega arith) (ground arith))
    | no zero_year ↦
        rw (shifted_first d (omega arith) (omega arith)) (before_eras (omega arith) (omega arith))
  ]
]

from_shifted :
    (days shifted : ℤ)
    → days +ℤ pos 719468 ≡ shifted
    → checked_i64 shifted ≡ some shifted
    → from_days_since_epoch days ≡ civil (div_euclid shifted 146097) (rem_euclid shifted 146097)
unfolding from_days_since_epoch
from_shifted days shifted e c = rw e (rw c refl)

uncount : (n : ℕ) → diff n 719468 +ℤ pos 719468 ≡ pos n
unfolding ◌+ℤ◌ diff
uncount n = ground arith

-- Counting the days and undoing the count of the epoch gives the era and its day.
pub shifted_back :
    (era day_of_era : ℕ)
    → era ≤ 25
    → day_of_era < 146097
    → from_days_since_epoch ((scale (pos era) 146097 +ℤ pos day_of_era) +ℤ negate 719468)
      ≡ civil (pos era) day_of_era
unfolding scale negate ◌+ℤ◌ checked_i64 div_euclid rem_euclid
shifted_back era doe small lt =
    from_shifted (diff (era * 146097 + doe) 719468) (pos (era * 146097 + doe)) (uncount _)
      (ground arith)
    ∙ (let e : (era * 146097 + doe) / 146097 ≡ era = omega arith in
        let r : (era * 146097 + doe) % 146097 ≡ doe = omega arith in
        ap (λ k. civil (pos k) ((era * 146097 + doe) % 146097)) e ∙ ap (civil (pos era)) r)

uncount_before :
    (doe : ℕ)
    → doe < 146097
    → ((scale (negsuc 0) 146097 +ℤ pos doe) +ℤ negate 719468) +ℤ pos 719468 ≡ negsuc (146096 - doe)
unfolding ◌+ℤ◌ diff scale negate
uncount_before doe h = ground arith

pub shifted_back_before :
    (day_of_era : ℕ)
    → day_of_era < 146097
    → from_days_since_epoch ((scale (negsuc 0) 146097 +ℤ pos day_of_era) +ℤ negate 719468)
      ≡ civil (negsuc 0) day_of_era
unfolding checked_i64 div_euclid rem_euclid
shifted_back_before doe lt =
    from_shifted _ (negsuc (146096 - doe)) (uncount_before doe lt) (ground arith)
    ∙ (let e : (146096 - doe) / 146097 ≡ 0 = omega arith in
        let r : 146097 - 1 - (146096 - doe) % 146097 ≡ doe = omega arith in
        ap (λ k. civil (negsuc k) (146097 - 1 - (146096 - doe) % 146097)) e
        ∙ ap (civil (negsuc 0)) r)
