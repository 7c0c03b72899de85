-- ===== src/Engine/Requests.antt =====
-- The requests of internal/engine: task definitions, steps and enqueue requests. The codec that decodes
-- inputs is not part of the repository's logic here: a key function is a function of the raw input.
use quacker.Prelude.{ℕ, String, ℤ, Bool, List, Option}
use quacker.Store.Model.{Bytes, RunKind}
use quacker.Store.Enqueue.{ConcurrencyStrategy, UniqueConflict}
use quacker.Engine.Retry.{Backoff}

-- An extra concurrency key: its namespace ("" for the task's own), its value, and its limit.
pub record KeyDef : Type 0 where
  pub name : String
  pub fn : Bytes → String
  pub limit : ℤ

pub record TaskDef : Type 0 where
  pub name : String
  pub queue : String
  pub max_attempts : ℤ
  pub timeout : ℕ
  pub backoff : Backoff
  pub key_fn : Option (Bytes → String)
  pub key_limit : ℤ
  pub key_strategy : ConcurrencyStrategy
  pub labels : List String
  pub dead_letter : Bool
  pub sequence_fn : Option (Bytes → String)
  pub extra_keys : List KeyDef
  pub ephemeral : Bool

pub record StepReq : Type 0 where
  pub name : String
  pub deps : List String
  pub def : Option TaskDef

pub record EnqueueRequest : Type 0 where
  pub workflow : String
  pub kind : RunKind
  pub queue : String
  pub priority : ℤ
  pub run_at : ℕ  -- 0 is the zero time
  pub input : Bytes
  pub unique_key : String
  pub conflict : UniqueConflict
  pub parent_id : String
  pub parent_step : String
  pub groups : Bytes
  pub ephemeral : Bool
  pub steps : List StepReq
