-- ===== src/Select/Region.antt =====
-- The requests of frontend/src/components/AwsResourceSelect.js for the resources of a region: one when
-- the region changes, as the effect on `fetchItems` makes it, and one at each click on the buttons
-- that refresh or retry. The form goes on showing the select while requests are under way.
pub mod InOrder
use wolkvorm.Base.{
  List, [], ◌∷◌, ◌++◌, Option, none, some, Bool, true, false, not, ◌==◌, text_eq, if◌then◌else◌,
  Text, codes, length, ltb,
}
use wolkvorm.Text.{is_nonempty}
use wolkvorm.Text.Number.{show_number}
use wolkvorm.Select.{
  Item, Select, Reply, fetch_items, fetched, outside_click, toggle_item, remove_item,
  selected_values, get_display_value,
}

-- The select with the region of the form and the regions of the requests that have no answer yet, the
-- oldest first.
pub record Lookup : Type 0 where
  pub region : Text
  pub select : Select
  pub pending : List Text

-- `fetchItems`, up to its request.
unfoldable pub ask : Lookup → Lookup
unfolding fetch_items
ask l = record l { select = fetch_items l.select; pending = l.pending ++ l.region ∷ [] }

unfoldable pub open_lookup : Text → Select → Lookup
unfolding ask
open_lookup region s = ask (record { region = region; select = s; pending = [] })

-- A region that is the same makes no new `fetchItems`, and so no request.
unfoldable pub set_region : Text → Lookup → Lookup
unfolding ask
set_region r l = if r == l.region then l else ask (record l { region = r })

-- The answer to a request.
unfoldable pub answer : Reply → Lookup → Lookup
unfolding fetched
answer reply l = record l { select = fetched reply l.select }

-- What the user does with the select.
pub data Edit : Type 0 where
  item_clicked tag_removed typed searched : Text → Edit
  trigger_clicked clicked_outside manual_clicked browse_clicked : Edit

unfoldable pub edit : (multi : Bool) → Edit → Select → Select
unfolding toggle_item remove_item outside_click
edit multi (item_clicked id) s = toggle_item multi id s
edit multi (tag_removed id) s = remove_item multi id s
edit multi (typed v) s = record s { value = v }
edit multi (searched t) s = record s { search = t }
edit multi trigger_clicked s = record s { is_open = not s.is_open }
edit multi clicked_outside s = outside_click s
edit multi manual_clicked s = record s { manual_mode = true }
edit multi browse_clicked s = record s { manual_mode = false }

or_default : Text → Text
or_default [] = codes "Select..."
or_default (c ∷ t) = c ∷ t

-- The text of the trigger.
unfoldable pub trigger_text : (multi : Bool) → (placeholder : Text) → Select → Text
unfolding or_default
trigger_text multi placeholder s =
    if s.loading
    then codes "Loading..."
    else if multi
    then (let n = length (selected_values multi s.value) in
        if ltb 0 n
        then show_number n ++ codes " selected - click to add more"
        else or_default placeholder)
    else if is_nonempty s.value
    then get_display_value s
    else or_default placeholder
