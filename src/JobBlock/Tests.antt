-- ===== src/JobBlock/Tests.antt =====
-- Examples of ids and blocks.
use periodic.Prelude.{
  ◌≡◌, refl, Bool, true, false, none, some, [], ◌∷◌, ◌++◌, Text, codes, to_lowercase,
}
use periodic.Config.Model.{pos}
use periodic.Config.Parse.{contains}
use periodic.JobBlock.{
  JobsAddArgs, newline, quote, kebab_loop, kebab, basename, derive_id, scalar, every_value,
}
use periodic.JobBlock.Reader.{read_scalar}

abbrev args : JobsAddArgs
args = record {
  every = some (codes "monday, friday");
  at = some (codes "02:30");
  on_day = none;
  last_day = false;
  cron = none;
  command = some (codes "/usr/bin/Back_Up --all");
  cwd = none;
  timeout = none;
  overlap = none;
  retry = some (pos 2);
  id = none;
  title = none;
  disabled = true;
}

derived : derive_id args ≡ some (codes "back-up")
unfolding derive_id basename kebab kebab_loop
derived = refl

abbrev never : Text → Bool
never t = false

days : every_value never (codes "monday, friday") ≡ codes "[monday, friday]"
unfolding every_value scalar contains to_lowercase
days = refl

clock : scalar never (codes "02:30") ≡ quote ∷ (codes "02:30" ++ (quote ∷ []))
unfolding scalar contains to_lowercase
clock = refl

-- The same texts without quotes are read as something else.
structure : read_scalar never (codes "a: b") ≡ some (codes "a", codes ": b")
unfolding to_lowercase
structure = refl

comment_behind : read_scalar never (codes "a #b") ≡ some (codes "a", codes "#b")
unfolding to_lowercase
comment_behind = refl

-- A carriage return is not quoted, and the text does not read back.
carriage_return : read_scalar never (scalar never (b'a' ∷ 13 ∷ b'b' ∷ []) ++ (newline ∷ [])) ≡ none
unfolding scalar contains to_lowercase
carriage_return = refl
