-- ===== src/ConfigEdit/Surgical.antt =====
-- What an edit leaves of the source: everything but the place that it writes to.
use periodic.Prelude.{
  ℕ, ◌-◌, ◌≡◌, Bool, true, Option, some, ◌∷◌, ◌++◌, Text, codes, is_space, all, nth, length,
  if◌then◌else◌,
}
use periodic.ConfigEdit.{Item, Items, locate_job, map_entries, end_of_node}
use periodic.ConfigEdit.Splices.{Spliced}
use periodic.ConfigEdit.Enabled.{EnabledAt}
use periodic.ConfigEdit.LineEnds.{IsLineEnd, IsOneLine}
use periodic.ConfigEdit.Plan.{Plan}

-- The text up to the end of the line on which the first entry of the job ends.
pub record FirstLine (events : Items) (item : ℕ) (before : Text) : Type 0 where
  pub upto : Text
  pub gap : Text
  pub parts : before ≡ upto ++ gap
  pub one_line : IsOneLine gap
  pub key : ℕ
  pub value : ℕ
  pub last : Item
  pub range : ℕ × ℕ
  pub first : nth (map_entries events item) 0 ≡ some (key, value)
  pub there : nth events (end_of_node events value - 1) ≡ some last
  pub spans : last.range ≡ some range
  pub stops : length upto ≡ range.1

-- What `set_enabled` writes: the value in the place of the span of the value of an entry `enabled` of
-- the job, or a line with the entry behind the line on which the first entry ends.
pub data Toggled (events : Items) (item : ℕ) (enabled : Bool) (source out : Text) : Type 0 where
  replaced :
      (r : ℕ × ℕ)
      → EnabledAt events (map_entries events item) r
      → Spliced source r.0 r.1 (if enabled then codes "true" else codes "false") out
      → Toggled events item enabled source out
  added :
      (before after indent : Text)
      → source ≡ before ++ after
      → FirstLine events item before
      → IsLineEnd after
      → all is_space indent ≡ true
      → out
        ≡ before
          ++ ((10
                ∷ (indent
                    ++ (codes "enabled: " ++ (if enabled then codes "true" else codes "false"))))
              ++ after)
      → Toggled events item enabled source out

-- The edit of a job that is found in the events of the source.
pub record Edited (parse : Text → Option Items) (job_id : Text) (enabled : Bool) (source out : Text)
    : Type 0 where
  pub events : Items
  pub item : ℕ
  pub parsed : parse source ≡ some events
  pub located : locate_job events job_id ≡ some item
  pub toggled : Toggled events item enabled source out
