-- ===== src/Config/Parse.antt =====
-- src/config.rs: `parse_every_interval` and `parse_duration`.
use periodic.Prelude.{
  ℕ, ◌*◌, ◌%◌, ◌^◌, Bool, Option, none, some, List, [], ◌∷◌, Text, codes, text_eq, any, trim,
  strip_suffix, parse_uint, to_lowercase, split_at_first, is_alphabetic, if◌then◌else◌, and_then,
}
use periodic.Config.Model.{Interval, minutes, hours, named}

abbrev pub u32_bound : ℕ
u32_bound = 2 ^ 32

abbrev pub u64_bound : ℕ
u64_bound = 2 ^ 64

-- The constant `NAMED`.
abbrev pub named_tokens : List Text
named_tokens =
    codes "day"
    ∷ codes "weekday"
    ∷ codes "month"
    ∷ codes "monday"
    ∷ codes "tuesday"
    ∷ codes "wednesday"
    ∷ codes "thursday"
    ∷ codes "friday"
    ∷ codes "saturday"
    ∷ codes "sunday"
    ∷ []

-- `[T]::contains`.
unfoldable pub contains : List Text → Text → Bool
contains names s = any (λ n. text_eq n s) names

-- A number in front of a unit letter.
abbrev pub counted : ℕ → Text → Option ℕ
counted letter s = and_then (strip_suffix letter s) (parse_uint u32_bound)

abbrev pub named_interval : Text → Option Interval
named_interval s =
    if contains named_tokens (to_lowercase s) then some (named (to_lowercase s)) else none

abbrev pub hour_interval : Option ℕ → Text → Option Interval
hour_interval (some n) s = some (hours n)
hour_interval none s = named_interval s

abbrev pub minute_interval : Option ℕ → Text → Option Interval
minute_interval (some n) s = some (minutes n)
minute_interval none s = hour_interval (counted b'h' s) s

-- `none` is the source's `Err(())`.
unfoldable pub parse_every_interval : Text → Option Interval
parse_every_interval token = let s = trim token in minute_interval (counted b'm' s) s

-- The `match` on the unit of a duration.
abbrev pub unit_seconds : Text → Option ℕ
unit_seconds unit =
    if text_eq unit (codes "s")
    then some 1
    else if text_eq unit (codes "m")
    then some 60
    else if text_eq unit (codes "h")
    then some 3600
    else if text_eq unit (codes "d")
    then some 86400
    else none

-- `n * mult` on `u64` wraps, as the release profile compiles it.
abbrev pub scale : Text → ℕ → Option ℕ
scale unit n = and_then (unit_seconds unit) (λ mult. some ((n * mult) % u64_bound))

-- `none` is the source's `Err(())`.
unfoldable pub parse_duration : Text → Option ℕ
parse_duration s =
    and_then (split_at_first is_alphabetic (trim s))
      (λ parts. and_then (parse_uint u64_bound parts.0) (scale parts.1))
