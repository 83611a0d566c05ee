-- ===== src/Operations/Tests.antt =====
-- The operations of a user who has just started a plan.
use Prim.Native.String.{String}
use wolkvorm.Base.{List, [], ◌∷◌, none, true, false, ◌≢◌, string_eq, ==-iff, Memᴰ, ◌≡◌, refl}
use wolkvorm.Operations.{
  Operation, running, Request, Operations, Event, start, message, closed, log, done, handle, run,
  new_operation, operation_id, shows_dismiss, patch_if, append_log,
}
use wolkvorm.Base.Sets.{add}
use wolkvorm.Base.Decimal.{decimal}
use wolkvorm.Operations.Evolution.{IsFrom, run-Evolves}
use wolkvorm.Operations.Lookup.{view, view_step, handle-view}
use wolkvorm.Operations.Sockets.{IsRunning, run-IsRunning}

abbrev request : Request
request = record {
  schema_id = "ec2";
  schema_name = "";
  action = "plan";
  inputs = [];
  region = "eu-central-1";
  env = "dev";
  resource_id = "";
}

abbrev idle : Operations
idle = record { operations = []; ws_refs = [] }

abbrev plan : Operation
plan = record {
  id = "plan-7";
  schema_id = "ec2";
  schema_name = "ec2";
  action = "plan";
  status = running;
  logs = "Starting terraform plan...\n";
  started_at = 8;
  expanded = false;
  duration = none;
  plan_id = none;
  record_id = none;
}

abbrev planning : Operations
planning = record { operations = plan ∷ []; ws_refs = "plan-7" ∷ [] }

planning_eq : handle (start request 7 8 true) idle ≡ planning
unfolding handle new_operation operation_id add decimal
planning_eq = refl

abbrev finish : List Event
finish =
    message "plan-7" (log "ok") ∷ message "plan-7" (done "done" none none) ∷ closed "plan-7" ∷ []

abbrev finished : Operation
finished = record plan { status = done; logs = "Starting terraform plan...\nok\n" }

run-Evolves_example : IsFrom finish (plan ∷ []) finished
unfolding run handle patch_if append_log
run-Evolves_example = run-Evolves finish planning finished (Memᴰ.head refl)

handle-view_example :
    view (handle (message "plan-7" (log "ok")) planning) "plan-7"
    ≡ view_step (message "plan-7" (log "ok")) (view planning) "plan-7"
handle-view_example = handle-view (message "plan-7" (log "ok")) planning "plan-7"

other_id : operation_id request 9 ≢ "plan-7"
unfolding operation_id decimal
other_id = λ e. cc ((==-iff {K = String} "plan-9" "plan-7").1 e)

run-IsRunning_example :
    IsRunning "plan-7" (run (start request 9 9 true ∷ []) (handle (closed "plan-7") planning))
unfolding shows_dismiss
run-IsRunning_example =
    run-IsRunning "plan-7" (start request 9 9 true ∷ []) planning (refl, refl) (other_id, tt)
