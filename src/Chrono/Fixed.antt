-- ===== src/Chrono/Fixed.antt =====
-- A calendar for the tests: UTC, and a zone whose clocks go back by an hour, once. Dates are counted
-- in months of 31 days.
use periodic.Prelude.{
  ℕ, zero, suc, ◌+◌, ◌-◌, ◌*◌, ◌/◌, ◌%◌, ◌≤◌, ◌<◌, ◌≡◌, refl, ap, Bool, Bool-cases, true, false,
  none, some, codes, text_eq, decimal, parse_uint, ltb, leb, is_empty, if◌then◌else◌, arith, inl,
  inr,
}
use periodic.Config.Parse.{u64_bound}
use periodic.Chrono.{
  Chrono, Weekday, thu, succ, LocalResult, single, ambiguous, gap, second_ns, minute_ns, hour_ns,
  ZoneLaws, GapsEnd,
}

-- The clocks go back at this instant, from 01:00 to 00:00.
abbrev pub turn : ℕ
turn = 172800000000000

abbrev pub fold_to_local : ℕ → ℕ
fold_to_local i = if ltb i turn then i + hour_ns else i

abbrev pub fold_from_local : ℕ → LocalResult
fold_from_local n =
    if ltb n hour_ns
    then gap
    else if ltb n turn
    then single (n - hour_ns)
    else if ltb n (turn + hour_ns)
    then ambiguous (n - hour_ns) n
    else single n

abbrev pub weekday_of : ℕ → Weekday
weekday_of zero = thu
weekday_of (suc n) = succ (weekday_of n)

abbrev pub fixed : Chrono
fixed = record {
  Tz = Bool;
  utc = false;
  zone_from_str = λ t. if is_empty t then none else some (text_eq t (codes "Folded"));
  system_zone = none;
  to_local = λ folded i. if folded then fold_to_local i else i;
  from_local = λ folded n. if folded then fold_from_local n else single n;
  zero_nanosecond = λ folded i. some (i - i % second_ns);
  from_ymd_opt = λ y m d. if leb d 31 then some (((y * 12 + m) - 1) * 31 + d) else none;
  year = λ date. ((date - 1) / 31) / 12;
  month = λ date. ((date - 1) / 31) % 12 + 1;
  day = λ date. (date - 1) % 31 + 1;
  weekday = weekday_of;
  cron_parses = λ e. true;
  next_cron_after = λ e folded i. some (i + hour_ns);
  show_instant = λ folded i. decimal i;
  read_instant = parse_uint u64_bound;
  show_micros = decimal;
}

single_value : LocalResult → ℕ → ℕ
single_value (single i) d = i
single_value (ambiguous e l) d = d
single_value gap d = d

zeroed_lem : (i j : ℕ) → i % second_ns ≡ 0 → some (i - i % second_ns) ≡ some j → j ≡ i
zeroed_lem i j h e = let e' : i - i % second_ns ≡ j = cc in omega (arith, h, e')

utc-ZoneLaws : ZoneLaws fixed false
utc-ZoneLaws = record {
  single_shows = λ n i h. cc;
  earliest_shows = λ n e l h. cc;
  once = λ n i j h le. let e : n ≡ i = cc in omega (arith, e, le);
  not_ahead = λ i. omega arith;
  not_behind = λ i. omega arith;
  whole_seconds = λ i. refl;
  zeroed = zeroed_lem;
}

folded-ZoneLaws : ZoneLaws fixed true
folded-ZoneLaws = record {
  single_shows = λ n i h. ground arith;
  earliest_shows = λ n e l h. ground arith;
  once = λ n i j h le. ground arith;
  not_ahead = λ i. ground arith;
  not_behind = λ i. ground arith;
  whole_seconds = λ i. ground arith;
  zeroed = zeroed_lem;
}

pub fixed-ZoneLaws : (tz : Bool) → ZoneLaws fixed tz
fixed-ZoneLaws false = utc-ZoneLaws
fixed-ZoneLaws true = folded-ZoneLaws

before_turn : (m : ℕ) → hour_ns ≤ m → m < turn → fold_from_local m ≡ single (m - hour_ns)
before_turn m h1 h2 = ground arith

after_turn : (m : ℕ) → turn + hour_ns ≤ m → fold_from_local m ≡ single m
after_turn m h = ground arith

pub fixed-GapsEnd : (tz : Bool) → GapsEnd fixed tz 100
fixed-GapsEnd false n = (0, n + (0 + 1) * minute_ns, omega arith, refl)
fixed-GapsEnd true n = elim (Bool-cases (ltb (n + minute_ns) hour_ns)) [
  | inl low ↦
      (60, _, omega arith, before_turn (n + (60 + 1) * minute_ns) (ground arith) (ground arith))
  | inr high ↦ elim (Bool-cases (ltb (n + minute_ns) turn)) [
    | inl early ↦
        (0, _, omega arith, before_turn (n + (0 + 1) * minute_ns) (ground arith) (ground arith))
    | inr late ↦ elim (Bool-cases (ltb (n + minute_ns) (turn + hour_ns))) [
      | inl twice ↦ (60, _, omega arith, after_turn (n + (60 + 1) * minute_ns) (ground arith))
      | inr over ↦ (0, _, omega arith, after_turn (n + (0 + 1) * minute_ns) (ground arith))
    ]
  ]
]

pub fixed-weeks : (date : ℕ) → weekday_of (date + 1) ≡ succ (weekday_of date)
fixed-weeks date = let e : date + 1 ≡ suc date = omega arith in ap weekday_of e
