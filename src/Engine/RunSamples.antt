-- ===== src/Engine/RunSamples.antt =====
-- A task, requests and an engine that the examples of internal/engine share.
use quacker.Prelude.{pos, false, List, [], ◌∷◌, none, some}
use quacker.Store.Model.{RunKind, Db}
use quacker.Store.Enqueue.{ConcurrencyStrategy, UniqueConflict}
use quacker.Engine.Requests.{TaskDef, StepReq, EnqueueRequest}
use quacker.Engine.State.{Engine, World}

abbrev pub task_t : TaskDef
task_t = record {
  name = "t";
  queue = "q";
  max_attempts = pos 3;
  timeout = 0;
  backoff = record { base = 10; max = 100; jitters = false };
  key_fn = none;
  key_limit = pos 0;
  key_strategy = ConcurrencyStrategy.hold;
  labels = [];
  dead_letter = false;
  sequence_fn = none;
  extra_keys = [];
  ephemeral = false;
}

-- "b" depends on "a".
abbrev pub chain_reqs : List StepReq
chain_reqs =
    record { name = "a"; deps = []; def = some task_t }
    ∷ record { name = "b"; deps = "a" ∷ []; def = some task_t }
    ∷ []

abbrev pub engine_q : Engine
engine_q = record {
  queues =
      record { name = "q"; concurrency = 2; in_flight = 1; rate_limit = 0; rate_window = 0 } ∷ [];
  tasks = task_t ∷ [];
  crons = [];
  pending_crons = [];
  event_subs = [];
  pending_subs = [];
  paused = [];
  waiters = "r" ∷ [];
  released = [];
  cancels = [];
  cancelled = [];
  halt_steps = [];
  pause_steps = [];
  published = [];
  pending = [];
  completer_stopped = false;
  wake = false;
  urgent = false;
  closing = false;
}

abbrev pub world_of : Db → World
world_of db = record { engine = engine_q; db = db }

abbrev pub request_n : EnqueueRequest
request_n = record {
  workflow = "w";
  kind = RunKind.workflow;
  queue = "";
  priority = pos 0;
  run_at = 0;
  input = [];
  unique_key = "";
  conflict = UniqueConflict.unique_reuse;
  parent_id = "";
  parent_step = "";
  groups = [];
  ephemeral = false;
  steps = chain_reqs;
}
