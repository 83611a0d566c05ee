-- ===== src/Rules.antt =====
-- frontend/src/components/SecurityGroupRules.js: the editor of a security group's rules.
pub mod Ports
pub mod Presets
pub mod Sources
mod Tests
use Prim.Native.String.{String}
use wolkvorm.Base.{
  ℕ, List, [], ◌∷◌, ◌++◌, Option, none, some, Bool, true, false, not, ◌&&◌, ◌||◌, ◌==◌, string_eq,
  text_eq, eqb, if◌then◌else◌, Text, codes, find_first, update_at, remove_at,
}
use wolkvorm.Text.{trim, includes, split, is_nonempty}
use wolkvorm.Text.Number.{show_number, parse_int}

-- A port of a rule: the empty text, or a number.
pub data Port : Type 0 where
  blank : Port
  number : ℕ → Port

pub record Rule : Type 0 where
  pub type : String
  pub protocol : String
  pub from_port : Port
  pub to_port : Port
  pub cidr : Text
  pub description : Text

-- An entry of `RULE_PRESETS`; both ports are `null`, or neither is.
pub record Preset : Type 0 where
  pub type : String
  pub protocol : String
  pub ports : Option (ℕ × ℕ)

abbrev preset : String → String → ℕ → ℕ → Preset
preset type protocol from to = record { type = type; protocol = protocol; ports = some (from, to) }

abbrev custom : String → String → Preset
custom type protocol = record { type = type; protocol = protocol; ports = none }

pub rule_presets : List Preset
rule_presets =
    preset "All traffic" "all" 0 0
    ∷ preset "All TCP" "tcp" 0 65535
    ∷ preset "All UDP" "udp" 0 65535
    ∷ custom "Custom TCP" "tcp"
    ∷ custom "Custom UDP" "udp"
    ∷ preset "SSH" "tcp" 22 22
    ∷ preset "HTTP" "tcp" 80 80
    ∷ preset "HTTPS" "tcp" 443 443
    ∷ preset "MySQL/Aurora" "tcp" 3306 3306
    ∷ preset "PostgreSQL" "tcp" 5432 5432
    ∷ preset "MSSQL" "tcp" 1433 1433
    ∷ preset "Redis" "tcp" 6379 6379
    ∷ preset "MongoDB" "tcp" 27017 27017
    ∷ preset "RDP" "tcp" 3389 3389
    ∷ preset "DNS (TCP)" "tcp" 53 53
    ∷ preset "DNS (UDP)" "udp" 53 53
    ∷ preset "SMTP" "tcp" 25 25
    ∷ preset "SMTPS" "tcp" 465 465
    ∷ preset "NFS" "tcp" 2049 2049
    ∷ preset "Elasticsearch" "tcp" 9200 9200
    ∷ []

pub default_rule : Rule
default_rule = record {
  type = "Custom TCP";
  protocol = "tcp";
  from_port = blank;
  to_port = blank;
  cidr = codes "0.0.0.0/0";
  description = [];
}

pub find_preset : String → Option Preset
unfolding rule_presets
find_preset type = find_first (λ p. p.type == type) rule_presets

-- The field that `updateRule` is called with, and its value.
pub data Edit : Type 0 where
  type_edit : String → Edit
  cidr_edit : Text → Edit
  description_edit : Text → Edit

abbrev set_ports : Option (ℕ × ℕ) → Rule → Rule
set_ports none r = record r { from_port = blank; to_port = blank }
set_ports (some (from, to)) r = record r { from_port = number from; to_port = number to }

fill : Option Preset → Rule → Rule
fill none r = r
fill (some p) r = set_ports p.ports (record r { protocol = p.protocol })

edit : Edit → Rule → Rule
unfolding fill
edit (type_edit t) r = fill (find_preset t) (record r { type = t })
edit (cidr_edit s) r = record r { cidr = s }
edit (description_edit s) r = record r { description = s }

pub add_rule : List Rule → List Rule
add_rule rules = rules ++ default_rule ∷ []

pub remove_rule : ℕ → List Rule → List Rule
remove_rule i rules = remove_at rules i

pub update_rule : ℕ → Edit → List Rule → List Rule
update_rule i e rules = update_at rules i (edit e)

pub is_custom_port : Rule → Bool
is_custom_port r = r.type == "Custom TCP" || r.type == "Custom UDP"

abbrev same_port : Port → Port → Bool
same_port blank blank = true
same_port blank (number m) = false
same_port (number n) blank = false
same_port (number n) (number m) = eqb n m

-- `String(port)`, and `port || ""`
abbrev port_string : Port → Text
port_string blank = []
port_string (number n) = show_number n

or_blank : Port → Text
or_blank blank = []
or_blank (number n) = if eqb n 0 then [] else show_number n

-- What stands in the ports column of a rule with a fixed type.
pub get_port_display : Rule → Text
get_port_display r =
    if r.protocol == "all"
    then codes "All"
    else if same_port r.from_port r.to_port
    then port_string r.from_port
    else port_string r.from_port ++ (b'-' ∷ port_string r.to_port)

-- What stands in the ports input of a custom rule.
pub port_text : Rule → Text
unfolding or_blank
port_text r =
    if same_port r.from_port r.to_port
    then or_blank r.from_port
    else or_blank r.from_port ++ (b'-' ∷ or_blank r.to_port)

-- `parseInt(text) || 0`
parse_port : Text → ℕ
parse_port s = elim (parse_int s) [ none ↦ 0 | some n ↦ n ]

-- `[from, to]` of a split; the text holds the separator.
ports_of : List Text → Rule → Rule
unfolding parse_port
ports_of [] r = r
ports_of (from ∷ []) r = r
ports_of (from ∷ to ∷ more) r = record r {
  from_port = number (parse_port from);
  to_port = number (parse_port to);
}

-- The change of the ports input. In the first branch `updateRule` is called before; the rules that
-- the second call of `syncToParent` gives replace what it did.
pub type_ports : Text → Rule → Rule
unfolding ports_of parse_port
type_ports s r =
    if includes s (b'-' ∷ [])
    then ports_of (split b'-' s) r
    else record r { from_port = number (parse_port s); to_port = number (parse_port s) }

-- Whether the source column shows the select, and not the input.
pub is_anywhere : Rule → Bool
is_anywhere r = r.cidr == codes "0.0.0.0/0" || r.cidr == codes "::/0"

pub choose_source : Text → Rule → Rule
unfolding edit
choose_source s r = if s == codes "custom" then edit (cidr_edit []) r else edit (cidr_edit s) r

-- The blur of the source input, whose text is the rule's source.
pub leave_cidr : Rule → Rule
unfolding edit
leave_cidr r =
    let val = trim r.cidr in
    if is_nonempty val && not (includes val (codes "/"))
    then (if val == codes "0.0.0.0"
        then edit (cidr_edit (codes "0.0.0.0/0")) r
        else edit (cidr_edit (val ++ codes "/32")) r)
    else r

pub data Event : Type 0 where
  added : Event
  removed : (i : ℕ) → Event
  type_chosen : (i : ℕ) → String → Event
  ports_typed : (i : ℕ) → Text → Event
  source_chosen : (i : ℕ) → Text → Event
  cidr_typed : (i : ℕ) → Text → Event
  cidr_left : (i : ℕ) → Event
  cidr_reset : (i : ℕ) → Event
  description_typed : (i : ℕ) → Text → Event

-- An event of an input that the row of a rule does not show cannot happen.
abbrev when : (Rule → Bool) → (Rule → Rule) → Rule → Rule
when shown f r = if shown r then f r else r

pub step : List Rule → Event → List Rule
unfolding add_rule remove_rule update_rule edit type_ports is_custom_port choose_source is_anywhere
    leave_cidr
step rules added = add_rule rules
step rules (removed i) = remove_rule i rules
step rules (type_chosen i t) = update_rule i (type_edit t) rules
step rules (ports_typed i s) = update_at rules i (when is_custom_port (type_ports s))
step rules (source_chosen i s) = update_at rules i (when is_anywhere (choose_source s))
step rules (cidr_typed i s) =
    update_at rules i (when (λ r. not (is_anywhere r)) (edit (cidr_edit s)))
step rules (cidr_left i) = update_at rules i (when (λ r. not (is_anywhere r)) leave_cidr)
step rules (cidr_reset i) =
    update_at rules i (when (λ r. not (is_anywhere r)) (edit (cidr_edit (codes "0.0.0.0/0"))))
step rules (description_typed i s) = update_rule i (description_edit s) rules

pub run : List Rule → List Event → List Rule
unfolding step
run rules [] = rules
run rules (e ∷ es) = run (step rules e) es
