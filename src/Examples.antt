-- ===== src/Examples.antt =====
-- The theorems on the event bus, the views and the workflow groups at concrete inputs.
use quacker.Prelude.{
  ◌≡◌, refl, some, none, [], ◌∷◌, Memᴰ, inr, arith, List, Option, String, length, get_elem?,
}
use quacker.Table.{select, count}
use quacker.Store.Model.{Status}
use quacker.Engine.Requests.{StepReq}
use quacker.Engine.State.{Notice, transition}
use quacker.Bus.{Bus, Sub, publish_events, publish_events_delivered}
use quacker.Views.{aggregate_step_status, aggregate_run_status, aggregate_step_status_run}
use quacker.Workflow.{Group, steps_in, by_name, new_group_workflow, new_group_workflow_after}

abbrev started : Notice
started = transition "r" "a" Status.queued Status.running "" 1

abbrev other_run : Notice
other_run = transition "s" "a" Status.queued Status.running "" 2

abbrev follower : Sub
follower = record { id = 0; run_id = "r"; buffer = 1; channel = [] }

abbrev full : Sub
full = record { id = 1; run_id = ""; buffer = 1; channel = other_run ∷ [] }

abbrev bus_of_two : Bus
bus_of_two = record { subs = follower ∷ full ∷ []; next_id = 2 }

publish_events_delivered_example :
    Memᴰ
      (record follower { channel = started ∷ [] })
      (publish_events (other_run ∷ started ∷ []) bus_of_two).subs
unfolding count select
publish_events_delivered_example =
    publish_events_delivered (other_run ∷ started ∷ []) bus_of_two follower (Memᴰ.head refl)
      (omega arith)

aggregate_step_status_run_example :
    aggregate_step_status (Status.running ∷ Status.interrupted ∷ [])
    ≡ some (aggregate_run_status (Status.running ∷ Status.interrupted ∷ []))
aggregate_step_status_run_example =
    aggregate_step_status_run Status.running (Status.interrupted ∷ [])

abbrev step_of : String → StepReq
step_of name = record { name = name; deps = []; def = none }

abbrev extract : Group
extract = record { name = "extract"; steps = step_of "x" ∷ step_of "y" ∷ []; after = [] }

abbrev load : Group
load = record { name = "load"; steps = step_of "z" ∷ []; after = "extract" ∷ [] }

abbrev etl : List (Option Group)
etl = some extract ∷ none ∷ some load ∷ []

new_group_workflow_after_example :
    (length (new_group_workflow etl).steps ≡ steps_in etl)
    × (s' : StepReq) × (get_elem? (new_group_workflow etl).steps 2 ≡ some s')
    × (s'.name ≡ "z")
    × Memᴰ "y" s'.deps
unfolding by_name
new_group_workflow_after_example =
    new_group_workflow_after (some extract ∷ none ∷ []) [] load [] [] (step_of "z") "y" refl
      (inr ("extract", extract, Memᴰ.head refl, refl, Memᴰ.tail (Memᴰ.head refl)))
