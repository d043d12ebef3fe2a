-- ===== src/ConfigEdit/Tests.antt =====
-- Examples of edits: one job, with a comment before its second key.
use periodic.Prelude.{◌≡◌, refl, false, Option, none, some, [], ◌∷◌, ◌++◌, Text, codes}
use periodic.Run.{returns}
use periodic.ConfigEdit.{
  Items, locate_job, splice, skip_comments, end_loop, end_of_node, entries_loop, map_entries,
  scalar_at, jobs_seq_start, find_loop, find_job_item, last_loop, last_job_item,
}
use periodic.ConfigEdit.Tree.{
  leaf, mapping, sequence, Fields, no_fields, field, no_nodes, node, emit, tree_locate, Document,
  events_of,
}
use periodic.ConfigEdit.Plan.{newline, job_item_line_span, remove_job, append_job}
use periodic.ConfigEdit.Locate.{index}
use periodic.ConfigEdit.Refine.{locate_job-refines}
use periodic.ConfigEdit.Append.{Appended, append_job-Appended}

abbrev source : Text
source =
    codes "jobs:"
    ++ (newline ∷ (codes "  - id: a" ++ (newline ∷ (codes "    run: b" ++ (newline ∷ [])))))

abbrev fields : Fields
fields =
    field [] (some (codes "jobs")) (some (0, 4)) []
      (sequence false (some (8, 9))
        (node []
          (mapping false (some (10, 10))
            (field [] (some (codes "id")) (some (10, 12)) []
              (leaf (some (codes "a")) (some (14, 15)))
              (field (none ∷ []) (some (codes "run")) (some (20, 23)) []
                (leaf (some (codes "b")) (some (25, 26))) (no_fields [])))
            (some (27, 27)))
          (no_nodes []))
        (some (27, 27)))
      (no_fields [])

abbrev document : Document
document = record {
  before = [];
  flow = false;
  start = some (0, 0);
  fields = fields;
  stop = some (27, 27);
  behind = [];
  no_mapping = tt;
}

-- A parser that knows one text.
abbrev parse : Text → Option Items
parse text = some (events_of document)

locate_job-refines_example :
    locate_job (events_of document) (codes "a") ≡ index (tree_locate (codes "a") fields 0)
locate_job-refines_example = locate_job-refines document (codes "a")

found : locate_job (events_of document) (codes "a") ≡ some 3
unfolding emit locate_job skip_comments end_loop end_of_node entries_loop map_entries scalar_at
    jobs_seq_start find_loop find_job_item
found = refl

-- What `pause` writes: a line of its own behind the first entry of the job.
abbrev paused : Text
paused =
    codes "jobs:"
    ++ (newline
        ∷ (codes "  - id: a"
            ++ (newline
                ∷ (codes "    enabled: false"
                    ++ (newline ∷ (codes "    run: b" ++ (newline ∷ [])))))))

-- The block is appended behind the last job.
abbrev appended : Text
appended = source ++ (codes "  - id: c" ++ (newline ∷ []))

appends : append_job parse source (codes "  - id: c") ≡ returns (some appended)
unfolding emit skip_comments end_loop end_of_node entries_loop map_entries scalar_at jobs_seq_start
    last_loop last_job_item job_item_line_span append_job splice
appends = refl

append_job-Appended_example : Appended (codes "  - id: c") source appended
append_job-Appended_example = append_job-Appended parse source (codes "  - id: c") appended appends

-- The job is removed with its line, and the rest of the file stays.
removes : remove_job parse source (codes "a") ≡ returns (some (codes "jobs:" ++ (newline ∷ [])))
unfolding emit locate_job skip_comments end_loop end_of_node entries_loop map_entries scalar_at
    jobs_seq_start find_loop find_job_item job_item_line_span remove_job splice
removes = refl
