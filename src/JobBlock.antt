-- ===== src/JobBlock.antt =====
-- src/job_block.rs: the id and the YAML block of a job from the flags of `jobs add`. The float parser of
-- Rust is a parameter.
pub mod Ids
pub mod Reader
pub mod Quoted
pub mod Scalars
mod Tests
use periodic.Prelude.{
  ℕ, zero, suc, ◌+◌, Bool, true, false, not, ◌&&◌, ◌||◌, Option, none, some, List, [], ◌∷◌, ◌++◌,
  Text, codes, text_eq, is_empty, any, ◌==◌, if◌then◌else◌, unwrap_or, or_else, is_alphabetic,
  is_digit, is_space, lower, to_lowercase, trim, trim_end_by, decimal,
}
use periodic.Config.Model.{ℤ, pos, negsuc}
use periodic.Config.Parse.{contains}
use periodic.Validation.Job.{first_word}

-- `JobsAddArgs`, without the output format.
pub record JobsAddArgs : Type 0 where
  pub every : Option Text
  pub at : Option Text
  pub on_day : Option ℤ
  pub last_day : Bool
  pub cron : Option Text
  pub command : Option Text
  pub cwd : Option Text
  pub timeout : Option Text
  pub overlap : Option Text
  pub retry : Option ℤ
  pub id : Option Text
  pub title : Option Text
  pub disabled : Bool

abbrev pub is_alphanumeric : ℕ → Bool
is_alphanumeric c = is_alphabetic c || is_digit c

-- The body of the loop of `kebab`, on the text so far and `prev_dash`.
abbrev pub kebab_step : Text → Bool → ℕ → Text × Bool
kebab_step out prev_dash c =
    if is_alphanumeric c
    then (out ++ (lower c ∷ []), false)
    else if not prev_dash && not (is_empty out)
    then (out ++ (b'-' ∷ []), true)
    else (out, prev_dash)

unfoldable pub kebab_loop : Text → Bool → Text → Text
kebab_loop out prev_dash [] = out
kebab_loop out prev_dash (c ∷ s) =
    let (out', prev_dash') = kebab_step out prev_dash c in kebab_loop out' prev_dash' s

unfoldable pub kebab : Text → Text
kebab s = trim_end_by (λ c. c == b'-') (kebab_loop [] false s)

-- `rsplit('/').next()`: what comes after the last slash; `part` is read since the last.
abbrev pub after_slash : Text → Text → Text
after_slash part [] = part
after_slash part (c ∷ s) = after_slash (if c == b'/' then [] else part ++ (c ∷ [])) s

unfoldable pub basename : Text → Text
basename cmd = after_slash [] (first_word cmd)

abbrev pub non_empty : Text → Option Text
non_empty s = if is_empty s then none else some s

abbrev pub slug_of : Option Text → (Text → Text) → Option Text
slug_of none part = none
slug_of (some t) part = non_empty (kebab (part t))

abbrev pub slug_id : JobsAddArgs → Option Text
slug_id args = or_else (slug_of args.title (λ t. t)) (slug_of args.command basename)

abbrev pub id_or : Option Text → Option Text → Option Text
id_or none slug = slug
id_or (some id) slug = some id

unfoldable pub derive_id : JobsAddArgs → Option Text
derive_id args = id_or args.id (slug_id args)

abbrev pub quote : ℕ
quote = 34

abbrev pub backslash : ℕ
backslash = 92

abbrev pub newline : ℕ
newline = 10

-- The characters that `scalar` looks for.
abbrev pub indicators : Text
indicators = newline ∷ 9 ∷ quote ∷ codes ":#'{}[],&*!|>%@`"

abbrev pub is_indicator : ℕ → Bool
is_indicator c = any (λ i. c == i) indicators

abbrev pub starts_badly : Text → Bool
starts_badly [] = false
starts_badly (c ∷ s) = (c == b'-') || ((c == b'?') || (c == 32))

abbrev pub ends_with_space : Text → Bool
ends_with_space [] = false
ends_with_space (c ∷ []) = c == 32
ends_with_space (c ∷ d ∷ s) = ends_with_space (d ∷ s)

abbrev pub keywords : List Text
keywords = codes "true" ∷ codes "false" ∷ codes "null" ∷ codes "yes" ∷ codes "no" ∷ codes "~" ∷ []

-- `str::replace` of a character.
abbrev pub replace_char : ℕ → Text → Text → Text
replace_char from to [] = []
replace_char from to (c ∷ s) = (if c == from then to else c ∷ []) ++ replace_char from to s

abbrev pub escape : Text → Text
escape s =
    replace_char quote (backslash ∷ quote ∷ [])
      (replace_char backslash (backslash ∷ backslash ∷ []) s)

-- `split(',')`; `part` is read since the last comma.
abbrev pub split_commas : Text → Text → List Text
split_commas part [] = part ∷ []
split_commas part (c ∷ s) =
    let next = split_commas [] s in
    let longer = split_commas (part ++ (c ∷ [])) s in if c == b',' then part ∷ next else longer

abbrev pub join_commas : List Text → Text
join_commas [] = []
join_commas (s ∷ []) = s
join_commas (s ∷ t ∷ rest) = s ++ (codes ", " ++ join_commas (t ∷ rest))

abbrev pub show_int : ℤ → Text
show_int (pos n) = decimal n
show_int (negsuc n) = codes "-" ++ decimal (n + 1)

-- A line of the block: what stands before the value, and the value.
abbrev pub line : Text → Text → Text
line name value = name ++ (value ++ (newline ∷ []))

abbrev pub optional_line {ℓ} : {A : Type ℓ} → Text → (A → Text) → Option A → Text
optional_line name show none = []
optional_line name show (some a) = line name (show a)

module _ (parses_f64 : Text → Bool) where
  abbrev pub needs_quotes : Text → Bool
  needs_quotes s =
      is_empty s
      || (any is_indicator s
          || (starts_badly s
              || (ends_with_space s || (contains keywords (to_lowercase s) || parses_f64 s))))

  unfoldable pub scalar : Text → Text
  scalar s = if needs_quotes s then quote ∷ (escape s ++ (quote ∷ [])) else s

  abbrev pub scalars : List Text → List Text
  scalars [] = []
  scalars (s ∷ rest) = scalar (trim s) ∷ scalars rest

  unfoldable pub every_value : Text → Text
  every_value s =
      if any (λ c. c == b',') s
      then codes "[" ++ (join_commas (scalars (split_commas [] s)) ++ codes "]")
      else scalar s

  abbrev pub repeated : JobsAddArgs → Option Text → Text
  repeated args none = []
  repeated args (some every) =
      line (codes "      every: ") (every_value every)
      ++ (optional_line (codes "      at: ") scalar args.at
          ++ (optional_line (codes "      on_day: ") show_int args.on_day
              ++ (if args.last_day then line (codes "      last_day: true") [] else [])))

  abbrev pub schedule_lines : JobsAddArgs → Option Text → Text
  schedule_lines args none = repeated args args.every
  schedule_lines args (some cron) = line (codes "      cron: ") (scalar cron)

  abbrev pub retry_lines : Option ℤ → Text
  retry_lines none = []
  retry_lines (some r) =
      line (codes "    retry:") [] ++ line (codes "      max_retries: ") (show_int r)

  -- The lines behind the first.
  abbrev pub body : JobsAddArgs → Text
  body args =
      optional_line (codes "    title: ") scalar args.title
      ++ ((if args.disabled then line (codes "    enabled: false") [] else [])
          ++ (line (codes "    schedule:") []
              ++ (schedule_lines args args.cron
                  ++ (line (codes "    execution:") []
                      ++ (line (codes "      command: ") (scalar (unwrap_or args.command []))
                          ++ (optional_line (codes "      cwd: ") scalar args.cwd
                              ++ (optional_line (codes "    timeout: ") scalar args.timeout
                                  ++ (optional_line (codes "    overlap_policy: ") scalar
                                        args.overlap
                                      ++ retry_lines args.retry))))))))

  unfoldable pub build_block : Text → JobsAddArgs → Text
  build_block id args = line (codes "  - id: ") (scalar id) ++ body args
