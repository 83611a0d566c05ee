-- ===== src/Operations.antt =====
-- frontend/src/contexts/OperationContext.js: the terraform operations that the user has started,
-- each fed by a WebSocket. The handlers of one socket are closures over the operation's `id`.
pub mod Evolution
pub mod Bars
pub mod Lookup
pub mod Sockets
mod Tests
use Prim.Native.String
use Prim.Native.String.{String}
use wolkvorm.Base.{
  ℕ, List, [], ◌∷◌, map, Option, none, some, Bool, true, false, not, ◌==◌, string_eq, if◌then◌else◌,
  select, find_first,
}
use wolkvorm.Base.Sets.{has, add, delete}
use wolkvorm.Base.Decimal.{decimal}
use wolkvorm.Form.{Values}

pub data Status : Type 0 where
  running : Status
  done : Status
  error : Status

pub record Operation : Type 0 where
  pub id : String
  pub schema_id : String
  pub schema_name : String
  pub action : String
  pub status : Status
  pub logs : String
  pub started_at : ℕ
  pub expanded : Bool
  pub duration : Option String
  pub plan_id : Option String
  pub record_id : Option String

-- What `startOperation` is given; an absent `schemaName` or `resourceId` is "".
pub record Request : Type 0 where
  pub schema_id : String
  pub schema_name : String
  pub action : String
  pub inputs : Values
  pub region : String
  pub env : String
  pub resource_id : String

-- A parsed message, by its `type`.
pub data Message : Type 0 where
  log : String → Message
  done : (status : String) (duration plan_id : Option String) → Message
  approval_required : String → Message
  error : String → Message
  started : String → Message
  other : Message

-- What the socket of an operation sends when it opens; an empty `resourceId` is left out.
pub record Payload : Type 0 where
  pub schema_id : String
  pub inputs : Values
  pub region : String
  pub env : String
  pub action : String
  pub resource_id : Option String

unfoldable pub payload : Request → Payload
payload r = record {
  schema_id = r.schema_id;
  inputs = r.inputs;
  region = r.region;
  env = r.env;
  action = r.action;
  resource_id = if r.resource_id == "" then none else some r.resource_id;
}

-- `operations`, and the keys of `wsRefs.current`.
pub record Operations : Type 0 where
  pub operations : List Operation
  pub ws_refs : List String

infixl 65 ◌+s◌
abbrev pub ◌+s◌ : String → String → String
s +s t = String.◌++◌ s t

-- The first argument of `prev.map(op => op.id === id ? … : op)`.
patch_if : String → (Operation → Operation) → Operation → Operation
patch_if id patch op = if op.id == id then patch op else op

pub update_op : String → (Operation → Operation) → Operations → Operations
unfolding patch_if
update_op id patch s = record s { operations = map (patch_if id patch) s.operations }

pub operation_id : Request → ℕ → String
operation_id r now = r.action +s "-" +s decimal now

-- The operation as it is listed at first; `Date.now()` is called for the id and for `startedAt`.
unfoldable pub new_operation : Request → ℕ → ℕ → Operation
unfolding operation_id
new_operation r now later = record {
  id = operation_id r now;
  schema_id = r.schema_id;
  schema_name = if r.schema_name == "" then r.schema_id else r.schema_name;
  action = r.action;
  status = running;
  logs = "Starting terraform " +s r.action +s "...\n";
  started_at = later;
  expanded = false;
  duration = none;
  plan_id = none;
  record_id = none;
}

abbrev fail : Operation → Operation
fail op = record op { status = error }

-- `connected` says whether `new WebSocket` returned or threw.
unfoldable pub start_operation :
    Request → (now later : ℕ) (connected : Bool) → Operations → Operations
unfolding new_operation
start_operation r now later connected s =
    let listed = record s { operations = new_operation r now later ∷ s.operations } in
    if connected
    then record listed { ws_refs = add (operation_id r now) s.ws_refs }
    else update_op (operation_id r now) fail listed

append_log : String → Operation → Operation
append_log text op = record op { logs = op.logs +s text }

-- The change that a message makes to its operation.
pub receive : Message → Operation → Operation
unfolding append_log
receive (log text) op = append_log (text +s "\n") op
receive (done status duration plan_id) op = record op {
  status = if status == "error" then error else done;
  duration = duration;
  plan_id = plan_id;
}
receive (approval_required text) op =
    append_log ("\nApproval Required\n\n" +s text +s "\n") (record op { status = done })
receive (error text) op = append_log ("ERROR: " +s text +s "\n") (record op { status = error })
receive (started text) op = record op { record_id = some text }
receive other op = op

pub on_message : String → Message → Operations → Operations
on_message id m s = update_op id (receive m) s

pub on_error : String → Operations → Operations
on_error id s = update_op id fail s

pub on_close : String → Operations → Operations
on_close id s = record s { ws_refs = delete id s.ws_refs }

pub dismiss_operation : String → Operations → Operations
dismiss_operation id s = record {
  operations = select (λ op. not (op.id == id)) s.operations;
  ws_refs = if has id s.ws_refs then delete id s.ws_refs else s.ws_refs;
}

abbrev toggle : Operation → Operation
toggle op = record op { expanded = not op.expanded }

pub toggle_expand : String → Operations → Operations
toggle_expand id s = update_op id toggle s

pub get_operation : String → Operations → Option Operation
get_operation id s = find_first (λ op. op.id == id) s.operations

-- What can happen: calls of the context's functions, and events of the sockets.
pub data Event : Type 0 where
  start : Request → (now later : ℕ) (connected : Bool) → Event
  message : String → Message → Event
  failed : String → Event
  closed : String → Event
  dismissed : String → Event
  toggled : String → Event

-- The events of the sockets and of the bars of the operations.
abbrev pub IsOutside : Event → Type 0
IsOutside (start r now later connected) = ⊥
IsOutside (message id m) = Unit
IsOutside (failed id) = Unit
IsOutside (closed id) = Unit
IsOutside (dismissed id) = Unit
IsOutside (toggled id) = Unit

pub handle : Event → Operations → Operations
unfolding start_operation on_message on_error on_close dismiss_operation toggle_expand update_op
    receive
handle (start r now later connected) s = start_operation r now later connected s
handle (message id m) s = on_message id m s
handle (failed id) s = on_error id s
handle (closed id) s = on_close id s
handle (dismissed id) s = dismiss_operation id s
handle (toggled id) s = toggle_expand id s

pub run : List Event → Operations → Operations
unfolding handle
run [] s = s
run (e ∷ es) s = run es (handle e s)

-- `OperationBar` of frontend/src/components/OperationBars.js renders its dismiss button only for an
-- operation that is not running.
pub shows_dismiss : Operation → Bool
shows_dismiss op = elim op.status [ running ↦ false | done ↦ true | error ↦ true ]
