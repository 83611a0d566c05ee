-- ===== src/Select.antt =====
-- frontend/src/components/AwsResourceSelect.js: the select of one or several AWS resources. Its
-- value stands in the form; here it stands beside the component's own state, and `onChange`
-- replaces it.
pub mod Toggle
pub mod Selection
pub mod Region
pub mod Config
mod Tests
use Prim.Native.String.{String}
use wolkvorm.Base.{
  ℕ, List, [], ◌∷◌, Option, none, some, Bool, true, false, not, ◌&&◌, ◌==◌, text_eq, string_eq,
  if◌then◌else◌, Text, find_first, select, length, eqb,
}
use wolkvorm.Base.Sets.{has, add, delete, add_all}
use wolkvorm.Text.{join, comma_items, is_nonempty}

-- A resource as the server lists it; `id` is what `idField` names.
pub record Item : Type 0 where
  pub id : Text
  pub label : Text

pub record Select : Type 0 where
  pub value : Text
  pub items : List Item
  pub loading : Bool
  pub error : Option String
  pub search : Text
  pub is_open : Bool
  pub manual_mode : Bool

pub selected_values : Bool → Text → List Text
selected_values multi value = if multi then comma_items value else []

-- What the request for the list ends with: a list, something that is not a list, an answer with an
-- `error`, or a failure of the request, with its message.
pub data Reply : Type 0 where
  listed : List Item → Reply
  malformed : Reply
  refused : String → Reply
  failed : String → Reply

-- `fetchItems`: what it sets at once, and what it sets when the request has ended.
pub fetch_items : Select → Select
fetch_items s = record s { loading = true; error = none }

pub fetched : Reply → Select → Select
fetched (listed items) s = record s { items = items; loading = false }
fetched malformed s = record s { items = []; loading = false }
fetched (refused message) s = record s { error = some message; items = []; loading = false }
fetched (failed message) s = record s { error = some message; items = []; loading = false }

pub outside_click : Select → Select
outside_click s = record s { is_open = false }

pub flip : Text → List Text → List Text
flip id current = if has id current then delete id current else add id current

pub toggle_item : Bool → Text → Select → Select
unfolding selected_values flip
toggle_item true id s = record s {
  value = join b',' (flip id (add_all [] (selected_values true s.value)));
}
toggle_item false id s = record s { value = id; is_open = false; search = [] }

pub remove_item : Bool → Text → Select → Select
unfolding selected_values
remove_item multi id s = record s {
  value = join b',' (select (λ v. not (v == id)) (selected_values multi s.value));
}

pub get_display_value : Select → Text
get_display_value s =
    if is_nonempty s.value
    then elim (find_first (λ i. i.id == s.value) s.items) [ none ↦ s.value | some i ↦ i.label ]
    else []

-- Which of its three forms the component of a known type takes.
pub data View : Type 0 where
  manual_input : View
  retry_input : View
  dropdown : View

pub view : Select → View
view s = if s.manual_mode then manual_input else elim s.error [
  | none ↦ dropdown
  | some message ↦ if not (message == "") && eqb (length s.items) 0 then retry_input else dropdown
]
