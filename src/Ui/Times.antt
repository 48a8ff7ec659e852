-- ===== src/Ui/Times.antt =====
-- The durations and ages that internal/ui/ui.go prints. Times and durations are in nanoseconds, the
-- zero time is 0. The code goes through float64, which is exact here except within some
-- nanoseconds before a whole number of days.
use grex.Base.{
  ℕ, zero, suc, ◌+◌, ◌-◌, ◌*◌, ◌/◌, ◌%◌, ◌^◌, ◌≤◌, ◌<◌, [], ◌∷◌, ◌++◌, if◌then◌else◌, ◌==◌, ltb,
  leb, length, take, arith, Str, text, min,
}
use grex.Base.Int.{ℤ, pos, pos_part}

-- %d
abbrev decimal_by : ℕ → ℕ → Str
decimal_by zero n = (48 + n % 10) ∷ []
decimal_by (suc fuel) n =
    let front = decimal_by fuel (n / 10) in
    if ltb n 10 then (48 + n) ∷ [] else front ++ ((48 + n % 10) ∷ [])

-- A 64-bit number has at most 20 digits.
unfoldable pub decimal : ℕ → Str
decimal n = decimal_by 20 n

abbrev pub second : ℕ
second = 1000000000

abbrev pub minute : ℕ
minute = 60 * second

abbrev pub hour : ℕ
hour = 60 * minute

-- d.Round(time.Second) of a duration that is not negative: halves go up, and a result out of range
-- is the largest duration.
unfoldable pub round_second : ℕ → ℕ
round_second d =
    let r = d % second in if ltb (r + r) second then d - r else min ((d - r) + second) (2 ^ 63 - 1)

unfoldable pub format_poll : ℕ → Str
format_poll d =
    let sec = round_second d / second in decimal (if ltb sec 1 then 5 else sec) ++ text "s"

-- … and — in UTF-8.
abbrev ellipsis : Str
ellipsis = 226 ∷ 128 ∷ 166 ∷ []

abbrev dash : Str
dash = 226 ∷ 128 ∷ 148 ∷ []

-- The bytes of the ellipsis stand for the rest of a long id.
unfoldable pub short_uid : Str → Str
short_uid id = if leb (length id) 12 then id else take 8 id ++ ellipsis

pub record Uptime : Type 0 where
  pub hours : ℕ
  pub minutes : ℕ
  pub seconds : ℕ

-- h, m and s of formatUptime; a negative duration counts as none.
unfoldable pub uptime_parts : ℤ → Uptime
uptime_parts d =
    let rounded = round_second (pos_part d) in
    record {
      hours = rounded / hour;
      minutes = (rounded / minute) % 60;
      seconds = (rounded / second) % 60;
    }

abbrev uptime_text : Uptime → Str
uptime_text u =
    if ltb 0 u.hours
    then decimal u.hours
      ++ text "h "
      ++ decimal u.minutes
      ++ text "m "
      ++ decimal u.seconds
      ++ text "s"
    else (if ltb 0 u.minutes
        then decimal u.minutes ++ text "m " ++ decimal u.seconds ++ text "s"
        else decimal u.seconds ++ text "s")

unfoldable pub format_uptime : ℤ → Str
format_uptime d = uptime_text (uptime_parts d)

-- How relTime words an age.
pub data Age : Type 0 where
  never just_now : Age
  seconds_ago minutes_ago hours_ago days_ago : ℕ → Age

abbrev age_of : ℕ → Age
age_of d =
    if ltb d second
    then just_now
    else (if ltb d minute
        then seconds_ago (d / second)
        else (if ltb d hour
            then minutes_ago (d / minute)
            else (if ltb d (24 * hour) then hours_ago (d / hour) else days_ago (d / (24 * hour)))))

unfoldable pub age : ℕ → ℕ → Age
age now t = if t == 0 then never else age_of (now - t)

abbrev age_text : Age → Str
age_text never = dash
age_text just_now = text "just now"
age_text (seconds_ago n) = decimal n ++ text "s ago"
age_text (minutes_ago n) = decimal n ++ text "m ago"
age_text (hours_ago n) = decimal n ++ text "h ago"
age_text (days_ago n) = decimal n ++ text "d ago"

unfoldable pub rel_time : ℕ → ℕ → Str
rel_time now t = age_text (age now t)

-- The three numbers of an uptime make up the duration to the nearest second, and minutes and
-- seconds stay below 60; for a duration that is not negative and at least a second below the
-- largest one.
pub uptime_parts_lem :
    (d : ℕ)
    → d + second < 2 ^ 63
    → (let u = uptime_parts (pos d) in
        let total = u.hours * 3600 + u.minutes * 60 + u.seconds in
        (2 * (total * second) ≤ 2 * d + second)
        × (2 * d < 2 * (total * second) + second)
        × (u.minutes < 60)
        × (u.seconds < 60))
unfolding uptime_parts round_second
uptime_parts_lem d h = ground arith

-- What the words of an age promise of it.
abbrev pub Fits : ℕ → Age → Type 0
Fits d never = ⊥
Fits d just_now = d < second
Fits d (seconds_ago n) = (0 < n) × (n < 60) × (n * second ≤ d) × (d < (n + 1) * second)
Fits d (minutes_ago n) = (0 < n) × (n < 60) × (n * minute ≤ d) × (d < (n + 1) * minute)
Fits d (hours_ago n) = (0 < n) × (n < 24) × (n * hour ≤ d) × (d < (n + 1) * hour)
Fits d (days_ago n) = (0 < n) × (n * (24 * hour) ≤ d) × (d < (n + 1) * (24 * hour))

-- The age shown for a time that is set is the elapsed time in its largest unit, rounded down.
pub age-Fits : (now t : ℕ) → 0 < t → Fits (now - t) (age now t)
unfolding age
age-Fits now t h = ground arith
