-- ===== src/Import.antt =====
-- frontend/src/pages/ImportPage.js: importing existing resources, in four steps. A request is two
-- events, its start and its reply; the page may have moved on in between.
pub mod Selection
mod Tests
use Prim.Native.String.{String}
use wolkvorm.Base.{
  ℕ, List, [], ◌∷◌, map, Option, none, some, Bool, true, false, not, ◌&&◌, ◌==◌, string_eq,
  if◌then◌else◌, eqb, length, select,
}
use wolkvorm.Base.Sets.{has, add, delete, add_all}

pub record Resource : Type 0 where
  pub id : String
  pub name : String

pub record Import : Type 0 where
  pub step : ℕ
  pub selected_type : String
  pub region : String
  pub scanning : Bool
  pub resources : List Resource
  pub selected : List String
  pub env : String
  pub importing : Bool
  pub result : Option (ℕ × ℕ)
  pub scan_info : Option (ℕ × ℕ)

pub open_import : Import
open_import = record {
  step = 1;
  selected_type = "";
  region = "us-east-1";
  scanning = false;
  resources = [];
  selected = [];
  env = "imported";
  importing = false;
  result = none;
  scan_info = none;
}

-- The answer to a scan: the resources, how many there are in all, and how many are managed.
pub data ScanReply : Type 0 where
  found : List Resource → (total managed : ℕ) → ScanReply
  failed : ScanReply

pub data ImportReply : Type 0 where
  imported : (imported total : ℕ) → ImportReply
  failed : ImportReply

pub start_scan : Import → Import
start_scan s = record s { scanning = true; resources = []; scan_info = none }

pub end_scan : ScanReply → Import → Import
end_scan (found rs total managed) s = record s {
  resources = rs;
  scan_info = some (total, managed);
  step = 2;
  scanning = false;
}
end_scan failed s = record s { scanning = false }

pub toggle_select : String → Import → Import
toggle_select id s = record s {
  selected = if has id s.selected then delete id s.selected else add id s.selected;
}

abbrev ids : List Resource → List String
ids rs = map (λ r. r.id) rs

pub select_all : Import → Import
select_all s =
    if eqb (length s.selected) (length s.resources)
    then record s { selected = [] }
    else record s { selected = add_all [] (ids s.resources) }

-- What the import request carries.
pub selected_resources : Import → List Resource
selected_resources s = select (λ r. has r.id s.selected) s.resources

pub start_import : Import → Import
start_import s = record s { importing = true }

pub end_import : ImportReply → Import → Import
end_import (imported n total) s = record s { result = some (n, total); step = 4; importing = false }
end_import failed s = record s { importing = false }

-- The button `Import More`.
pub import_more : Import → Import
import_more s = record s { step = 1; result = none; selected = []; resources = [] }

pub data Event : Type 0 where
  type_clicked : String → Event
  region_chosen : String → Event
  scan_clicked : Event
  scan_ended : ScanReply → Event
  toggled : String → Event
  all_clicked : Event
  back_clicked : Event
  configure_clicked : Event
  env_typed : String → Event
  import_clicked : Event
  import_ended : ImportReply → Event
  more_clicked : Event

-- What the page shows in a step; a disabled button does nothing, and an answer comes at any time.
abbrev at : ℕ → (Import → Import) → Import → Import
at n f s = if eqb s.step n then f s else s

abbrev unless : Bool → (Import → Import) → Import → Import
unless disabled f s = if disabled then s else f s

-- The list of step 2 and its buttons are shown if there are resources.
abbrev if_listed : (Import → Import) → Import → Import
if_listed f s = unless (eqb (length s.resources) 0) f s

abbrev go_to : ℕ → Import → Import
go_to n s = record s { step = n }

abbrev go_back : Import → Import
go_back s = if eqb s.step 2 then go_to 1 s else if eqb s.step 3 then go_to 2 s else s

pub happen : Import → Event → Import
unfolding start_scan end_scan toggle_select select_all start_import end_import import_more
happen s (type_clicked t) = at 1 (λ k. record k { selected_type = t }) s
happen s (region_chosen r) = at 1 (λ k. record k { region = r }) s
happen s scan_clicked =
    at 1 (λ k. if k.selected_type == "" then k else unless k.scanning start_scan k) s
happen s (scan_ended reply) = if s.scanning then end_scan reply s else s
happen s (toggled id) = at 2 (if_listed (toggle_select id)) s
happen s all_clicked = at 2 (if_listed select_all) s
happen s back_clicked = go_back s
happen s configure_clicked =
    at 2 (if_listed (λ k. unless (eqb (length k.selected) 0) (go_to 3) k)) s
happen s (env_typed e) = at 3 (λ k. record k { env = e }) s
happen s import_clicked = at 3 (λ k. unless k.importing start_import k) s
happen s (import_ended reply) = if s.importing then end_import reply s else s
happen s more_clicked = at 4 import_more s

pub run : Import → List Event → Import
unfolding happen
run s [] = s
run s (e ∷ es) = run (happen s e) es
