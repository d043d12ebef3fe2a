-- ===== src/ConfigEdit/Append.antt =====
-- What `append_job` leaves of the source.
use periodic.Prelude.{
  ℕ, ◌≡◌, ap, sym, [], ◌∷◌, all, ◌==◌, true, trim_end_by, ◌∙◌, Option, none, some, ◌++◌, Text, drop,
  and_then, subst, some_injective,
}
use mathlib.Core.List.{append_assoc}
use periodic.Run.{returns, ◌>>=◌, >>=-eq-returns, returns_injective}
use periodic.ConfigEdit.{Items, slice_to, splice, jobs_seq_start, not_flow, last_job_item}
use periodic.ConfigEdit.Lines.{IsLead, EndsOpen, trimmed, lead_of, lead_of-IsLead}
use periodic.ConfigEdit.Plan.{
  newline, Plan, carry_out, block_text, append_plan, append_after, job_item_line_span, append_job,
}
use periodic.ConfigEdit.Splices.{slice_to-eq, splice_at, carry_out-eq}

-- The block without the line breaks at its end stands between two parts of the source, with one line
-- break behind, and with one in front exactly where the text before does not end a line.
pub record Appended (block source out : Text) : Type 0 where
  pub before : Text
  pub after : Text
  pub lead : Text
  pub core : Text
  pub breaks : Text
  pub was : source ≡ before ++ after
  pub now : out ≡ before ++ (lead ++ (core ++ (10 ∷ after)))
  pub led : IsLead before lead
  pub whole : block ≡ core ++ breaks
  pub only : all (λ c. c == 10) breaks ≡ true
  pub ends : EndsOpen core

block_text-append :
    (before block after : Text)
    → block_text before block ++ after
      ≡ lead_of before ++ (trim_end_by (λ c. c == newline) block ++ (10 ∷ after))
block_text-append before block after =
    append_assoc (lead_of before) (trim_end_by (λ c. c == newline) block ++ (10 ∷ [])) after
    ∙ ap (lead_of before ++◌) (append_assoc (trim_end_by (λ c. c == newline) block) (10 ∷ []) after)

inserted-Appended :
    (source block out before after : Text)
    → source ≡ before ++ after
    → out ≡ before ++ (block_text before block ++ after)
    → Appended block source out
inserted-Appended source block out before after was now =
    let k = trimmed block in
    record {
      before = before;
      after = after;
      lead = lead_of before;
      core = trim_end_by (λ c. c == newline) block;
      breaks = k.breaks;
      was = was;
      now = now ∙ ap (before ++◌) (block_text-append before block after);
      led = lead_of-IsLead before;
      whole = k.whole;
      only = k.only;
      ends = k.ends;
    }

append_plan-Appended :
    (source block : Text) (o : Option (ℕ × ℕ)) (p : Plan) (out : Text)
    → append_plan source block o ≡ returns (some p)
    → splice source p.0 p.1 ≡ returns out
    → Appended block source out
append_plan-Appended source block none p out h s = cc
append_plan-Appended source block (some r) p out h s =
    let (before, q, e) =
      >>=-eq-returns (slice_to source r.1)
        (λ before. returns (some ((r.1, r.1), block_text before block))) h in
    let same = slice_to-eq source r.1 before q in
    let e' : ((r.1, r.1), block_text before block) ≡ p = some_injective (returns_injective e) in
    let s' : splice source (r.1, r.1) (block_text before block) ≡ returns out =
      ap (λ (x : Plan). splice source x.0 x.1) e' ∙ s in
    let (was, now) = splice_at source r.1 (block_text before block) out s' in
    subst
      (λ b.
        (source ≡ b ++ drop r.1 source)
        → (out ≡ b ++ (block_text before block ++ drop r.1 source))
        → Appended block source out)
      (sym same) (inserted-Appended source block out before (drop r.1 source)) was now

module _ (parse : Text → Option Items) where
  -- A job that is appended stands between two parts of the source, of which every byte stays as it was.
  -- Of its block the line breaks at the end are replaced by one; in front there is a line break exactly
  -- where the text before is neither empty nor ends in one.
  pub append_job-Appended :
      (source block out : Text)
      → append_job parse source block ≡ returns (some out)
      → Appended block source out
  unfolding append_job
  append_job-Appended source block out h = go (parse source) h
    where
      after :
          (events : Items) (o : Option ℕ)
          → append_after source events block o ≡ returns (some out)
          → Appended block source out
      after events none h = cc
      after events (some last) h =
          let (range, e1, h1) =
            >>=-eq-returns (job_item_line_span source events last)
              (λ range. append_plan source block range >>= carry_out source) h in
          let (plan, e2, h2) =
            >>=-eq-returns (append_plan source block range) (carry_out source) h1 in
          let (p, e3, s) = carry_out-eq source plan out h2 in
          append_plan-Appended source block range p out (e2 ∙ ap returns e3) s

      at_seq :
          (events : Items) (o : Option ℕ)
          → (elim o [
            | none ↦ returns none
            | some seq ↦ append_after source events block (last_job_item events seq)
          ])
            ≡ returns (some out)
          → Appended block source out
      at_seq events none h = cc
      at_seq events (some seq) h = after events (last_job_item events seq) h

      go :
          (o : Option Items)
          → (elim o [
            | none ↦ returns none
            | some events ↦ elim (and_then (jobs_seq_start events) (λ seq. not_flow events seq)) [
              | none ↦ returns none
              | some seq ↦ append_after source events block (last_job_item events seq)
            ]
          ])
            ≡ returns (some out)
          → Appended block source out
      go none h = cc
      go (some events) h =
          at_seq events (and_then (jobs_seq_start events) (λ seq. not_flow events seq)) h
