-- ===== src/Mutation.antt =====
-- src/config_mutation.rs: a change of the configuration file, as read, edit, validate and write. The
-- parser, the surgical edits and the file system are parameters; error texts are left out.
pub mod Disk
pub mod Wire
mod Tests
use periodic.Prelude.{
  Bool, true, false, not, ◌&&◌, ◌||◌, Option, none, some, List, [], ◌∷◌, Text, codes, text_eq,
  if◌then◌else◌,
}
use periodic.Run.{Run, returns, ◌>>=◌}
use periodic.Config.Model.{RawConfig}
use periodic.Chrono.{Chrono}
use periodic.Validation.{accepts}
use periodic.Validation.Job.{Machine}
use periodic.ConfigEdit.{Items}
use periodic.ConfigEdit.Plan as ConfigEdit

pub data Mutation : Type 0 where
  pause resume remove : (id : Text) → Mutation
  add : (block : Text) → Mutation
  replace : (content : Text) → Mutation

pub data ApplyError : Type 0 where
  refused system : ApplyError

pub data Fallible {ℓ} (E : Type 0) (A : Type ℓ) : Type ℓ where
  ok : A → Fallible E A
  err : E → Fallible E A

-- A `serde_json::Value`, as far as the requests read it.
pub data Value : Type 0 where
  string : Text → Value
  other : Value

abbrev pub get : Text → List (Text × Value) → Option Value
get k [] = none
get k ((name, v) ∷ params) = if text_eq name k then some v else get k params

-- `mutation_to_request`.
unfoldable pub mutation_to_request : Mutation → Text × List (Text × Value)
mutation_to_request (pause id) = (codes "jobs.pause", (codes "id", string id) ∷ [])
mutation_to_request (resume id) = (codes "jobs.resume", (codes "id", string id) ∷ [])
mutation_to_request (remove id) = (codes "jobs.remove", (codes "id", string id) ∷ [])
mutation_to_request (add block) = (codes "jobs.add", (codes "block", string block) ∷ [])
mutation_to_request (replace content) =
    (codes "config.replace", (codes "content", string content) ∷ [])

-- The closure of `request_to_mutation`, and the constructor that takes what it finds.
abbrev pub with_string : (Text → Mutation) → Option Value → Option Mutation
with_string make (some (string t)) = some (make t)
with_string make (some other) = none
with_string make none = none

unfoldable pub request_to_mutation : Text → List (Text × Value) → Option Mutation
request_to_mutation method params =
    if text_eq method (codes "jobs.pause")
    then with_string pause (get (codes "id") params)
    else if text_eq method (codes "jobs.resume")
    then with_string resume (get (codes "id") params)
    else if text_eq method (codes "jobs.remove")
    then with_string remove (get (codes "id") params)
    else if text_eq method (codes "jobs.add")
    then with_string add (get (codes "block") params)
    else if text_eq method (codes "config.replace")
    then with_string replace (get (codes "content") params)
    else none

unfoldable pub is_mutation_method : Text → Bool
is_mutation_method method =
    text_eq method (codes "jobs.pause")
    || (text_eq method (codes "jobs.resume")
        || (text_eq method (codes "jobs.remove")
            || (text_eq method (codes "jobs.add") || text_eq method (codes "config.replace"))))

-- The operations of src/config_edit.rs that a mutation uses, and `config::parse`; none is a refusal.
pub record Editor : Type 0 where
  pub set_enabled : Text → Text → Bool → Run (Option Text)
  pub remove_job : Text → Text → Run (Option Text)
  pub append_job : Text → Text → Run (Option Text)
  pub parse : Text → Option RawConfig

-- The editor of src/config_edit.rs, from the parser of the YAML events and `config::parse`.
abbrev pub config_editor : (Text → Option Items) → (Text → Option RawConfig) → Editor
config_editor events parse = record {
  set_enabled = ConfigEdit.set_enabled events;
  remove_job = ConfigEdit.remove_job events;
  append_job = ConfigEdit.append_job events;
  parse = parse;
}

-- The file: its text, if it can be read, and whether it can be replaced.
pub record File : Type 0 where
  pub content : Option Text
  pub writable : Bool

-- The code of the answer of `handle_ipc`.
pub data IpcCode : Type 0 where
  bad_params mutation_failed io_error : IpcCode

module _ (c : Chrono) (m : Machine) (e : Editor) where
  abbrev pub refuse : Option Text → Fallible ApplyError Text
  refuse none = err refused
  refuse (some t) = ok t

  abbrev pub edited : Option Text → (Text → Run (Option Text)) → Run (Fallible ApplyError Text)
  edited none edit = returns (err system)
  edited (some current) edit = edit current >>= (λ t. returns (refuse t))

  -- `render`.
  unfoldable pub render : File → Mutation → Run (Fallible ApplyError Text)
  render f (pause id) = edited f.content (λ t. e.set_enabled t id false)
  render f (resume id) = edited f.content (λ t. e.set_enabled t id true)
  render f (remove id) = edited f.content (λ t. e.remove_job t id)
  render f (add block) = edited f.content (λ t. e.append_job t block)
  render f (replace content) = returns (ok content)

  abbrev pub valid_config : Option RawConfig → Bool
  valid_config none = false
  valid_config (some raw) = accepts c m raw

  -- `validate`.
  unfoldable pub validate : Text → Bool
  validate yaml = valid_config (e.parse yaml)

  -- `atomic_write`: the whole of the new text, or the file as it was.
  abbrev pub atomic_write : File → Text → Fallible ApplyError (Unit {0}) × File
  atomic_write f t = if f.writable then (ok tt, record f { content = some t }) else (err system, f)

  abbrev pub persist : File → Fallible ApplyError Text → Fallible ApplyError (Unit {0}) × File
  persist f (err x) = (err x, f)
  persist f (ok t) = if validate t then atomic_write f t else (err refused, f)

  -- `apply_to_disk`.
  unfoldable pub apply_to_disk : File → Mutation → Run (Fallible ApplyError (Unit {0}) × File)
  apply_to_disk f mutation = render f mutation >>= λ r. returns (persist f r)

  abbrev pub ipc_code : Fallible ApplyError (Unit {0}) × File → Fallible IpcCode (Unit {0}) × File
  ipc_code (ok u, f) = (ok u, f)
  ipc_code (err refused, f) = (err mutation_failed, f)
  ipc_code (err system, f) = (err io_error, f)

  abbrev pub handle_request : File → Option Mutation → Run (Fallible IpcCode (Unit {0}) × File)
  handle_request f none = returns (err bad_params, f)
  handle_request f (some mutation) = apply_to_disk f mutation >>= λ r. returns (ipc_code r)

  unfoldable pub handle_ipc :
      Text → List (Text × Value) → File → Run (Fallible IpcCode (Unit {0}) × File)
  handle_ipc method params f = handle_request f (request_to_mutation method params)
