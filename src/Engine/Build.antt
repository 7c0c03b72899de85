-- ===== src/Engine/Build.antt =====
-- buildRun of engine.go: one enqueue request becomes a run and its steps. The run's id (newID) is a
-- parameter.
pub mod Rows
pub mod Fresh
pub mod Progress
use quacker.Prelude.{
  ℕ, suc, ◌+◌, String, ℤ, Bool, not, ◌&&◌, List, [], ◌∷◌, map, length, Option, none, some, str_eq,
  ◌==◌, if◌then◌else◌, ◌⊎◌, inl, inr,
}
use Prim.Native.String.{◌++◌ as str_append}
use quacker.Table.{select}
use quacker.Store.Model.{Status, Bytes, Run, Step, StepKey}
use quacker.Engine.Requests.{TaskDef, KeyDef, StepReq, EnqueueRequest}
use quacker.Engine.Dag.{DagError, validate_dag}
use quacker.Engine.State.{World, Engine, ensure_queue, norm_queue, at_least_one}
use quacker.Engine.Triggers.{register_task}

pub data BuildError : Type 0 where
  no_steps : BuildError
  invalid_dag : DagError → BuildError
  no_task_def : String → BuildError

-- The concurrency key and its limit; an empty key has no limit.
unfoldable pub key_of : TaskDef → Bytes → String × ℕ
key_of def input = elim def.key_fn [
  | none ↦ ("", 0)
  | some f ↦ (f input, if str_eq (f input) "" then 0 else at_least_one def.key_limit)
]

unfoldable pub sequence_key_of : TaskDef → Bytes → String
sequence_key_of def input = elim def.sequence_fn [ none ↦ "" | some f ↦ f input ]

-- The loop over ExtraKeys.
abbrev pub step_key : TaskDef → Bytes → KeyDef → StepKey
step_key def input kd = record {
  name = if str_eq kd.name "" then def.name else kd.name;
  value = kd.fn input;
  limit = at_least_one kd.limit;
}

unfoldable pub extra_keys_of : TaskDef → Bytes → List StepKey
extra_keys_of def input =
    map (step_key def input) (select (λ kd. not (str_eq (kd.fn input) "")) def.extra_keys)

abbrev pub start_status : List String → Status
start_status [] = Status.queued
start_status (d ∷ deps) = Status.blocked

abbrev pub start_time : ℕ → EnqueueRequest → ℕ
start_time now req = if req.run_at == 0 then now else req.run_at

abbrev pub step_id : String → String → String
step_id run_id name = str_append run_id (str_append "/" name)

-- The row of one step.
unfoldable pub step_row : String → ℕ → EnqueueRequest → ℕ → StepReq → TaskDef → Step
step_row run_id now req ord sr def = record {
  id = step_id run_id sr.name;
  run_id = run_id;
  name = sr.name;
  task = def.name;
  ord = ord;
  status = start_status sr.deps;
  depends_on = sr.deps;
  queue = norm_queue def.queue;
  priority = req.priority;
  input = req.input;
  output = [];
  error = "";
  attempts = 0;
  max_attempts = at_least_one def.max_attempts;
  timeout = def.timeout;
  run_at = start_time now req;
  created_at = now;
  started_at = 0;
  completed_at = 0;
  concurrency_key = (key_of def req.input).0;
  key_limit = (key_of def req.input).1;
  claimed_at = 0;
  resume_at = 0;
  wait_kind = "";
  wait_event = "";
  labels = def.labels;
  worker_id = "";
  lease_expires_at = 0;
  sequence_key = sequence_key_of def req.input;
  seq = 0;
  keys = extra_keys_of def req.input;
}

-- The loop over the steps, which registers each task; an error keeps what was registered before it.
unfoldable pub build_steps :
    String → ℕ → EnqueueRequest → ℕ → List StepReq → World → World × (BuildError ⊎ List Step)
build_steps run_id now req ord [] w = (w, inr [])
build_steps run_id now req ord (sr ∷ srs) w = elim sr.def [
  | none ↦ (w, inl (BuildError.no_task_def sr.name))
  | some def ↦
      let w1 = register_task now def w in
      let w2 = record w1 { engine = ensure_queue (norm_queue def.queue) w1.engine } in
      let (w3, r) = build_steps run_id now req (suc ord) srs w2 in
      (w3, elim r [ inl e ↦ inl e | inr steps ↦ inr (step_row run_id now req ord sr def ∷ steps) ])
]

-- The run mirrors its first step.
unfoldable pub run_row : String → ℕ → EnqueueRequest → String → Step → Run
run_row run_id now req queue first_step = record {
  id = run_id;
  workflow = req.workflow;
  kind = req.kind;
  status = Status.queued;
  queue = queue;
  priority = req.priority;
  input = req.input;
  output = [];
  error = "";
  attempts = 0;
  max_attempts = first_step.max_attempts;
  run_at = start_time now req;
  created_at = now;
  started_at = 0;
  completed_at = 0;
  concurrency_key = first_step.concurrency_key;
  parent_id = req.parent_id;
  parent_step = req.parent_step;
  trace_parent = "";
  unique_key = req.unique_key;
  paused_at = 0;
  dead_lettered_at = 0;
  sequence_key = first_step.sequence_key;
  seq = 0;
  ephemeral = req.ephemeral;
  groups = req.groups;
}

-- The queue that a run is filed under: a request's default gives way to its first task's.
unfoldable pub run_queue : EnqueueRequest → StepReq → String
run_queue req sr =
    if str_eq (norm_queue req.queue) "default"
    then elim sr.def [ none ↦ norm_queue req.queue | some def ↦ norm_queue def.queue ]
    else norm_queue req.queue

abbrev pub Built : Type 0
Built = Run × List Step

unfoldable pub finish_build :
    String → ℕ → EnqueueRequest → String → BuildError ⊎ List Step → BuildError ⊎ Built
finish_build run_id now req queue (inl e) = inl e
finish_build run_id now req queue (inr []) = inl BuildError.no_steps
finish_build run_id now req queue (inr (s ∷ steps)) =
    inr (run_row run_id now req queue s, s ∷ steps)

-- buildRun
unfoldable pub build_run : String → ℕ → EnqueueRequest → World → World × (BuildError ⊎ Built)
unfolding build_steps finish_build
build_run run_id now req w = elim req.steps [
  | [] ↦ (w, inl BuildError.no_steps)
  | sr ∷ srs ↦
      let w1 = record w { engine = ensure_queue (run_queue req sr) w.engine } in
      elim (validate_dag (sr ∷ srs)) [
        | some e ↦ (w1, inl (BuildError.invalid_dag e))
        | none ↦
            let (w2, r) = build_steps run_id now req 0 (sr ∷ srs) w1 in
            (w2, finish_build run_id now req (run_queue req sr) r)
      ]
]
