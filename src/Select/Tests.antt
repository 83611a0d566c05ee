-- ===== src/Select/Tests.antt =====
-- A multiple select of security groups.
use mathlib.Core.List.{Perm, foldr}
use wolkvorm.Base.{
  if◌then◌else◌, not, arith, List, [], ◌∷◌, Text, All, none, true, false, text_eq, codes, ◌≡◌, refl,
}
use wolkvorm.Base.Sets.{has, add, add_all, delete}
use wolkvorm.Text.{trim, join, comma_items}
use wolkvorm.Text.Items.{IsItem}
use wolkvorm.Select.{Reply, listed, Select, selected_values, toggle_item}
use wolkvorm.Select.Region.{Lookup, open_lookup, set_region, answer}
use wolkvorm.Select.Region.InOrder.{Reach, opened, moved, answered, shown, items_of, Reach-listed}
use wolkvorm.Select.Selection.{selection, toggle, is_odd, toggle_items, toggle_items-selection}

abbrev groups : Select
groups = record {
  value = codes "sg-1, sg-2";
  items = [];
  loading = false;
  error = none;
  search = [];
  is_open = true;
  manual_mode = false;
}

toggled : (toggle_item true (codes "sg-1") groups).value ≡ codes "sg-2"
unfolding toggle_item join has add_all comma_items add delete
toggled = refl

third_IsItem : IsItem (codes "sg-3")
unfolding trim
third_IsItem = (refl, refl, ground arith)

toggle_items-selection_example :
    ((x : Text)
      → has x (selected_values true (toggle_items (codes "sg-3" ∷ []) groups).value) ≡ (
          if is_odd x (codes "sg-3" ∷ [])
          then not (has x (selected_values true groups.value))
          else has x (selected_values true groups.value)))
    × (selection (toggle_items (codes "sg-3" ∷ []) groups)
        ≡ foldr toggle (selection groups) (codes "sg-3" ∷ []))
    × ((others : List Text)
        → All IsItem others
        → Perm others (codes "sg-3" ∷ [])
        → selection (toggle_items others groups)
          ≡ selection (toggle_items (codes "sg-3" ∷ []) groups))
    × ((id : Text)
        → IsItem id
        → selection (toggle_items (id ∷ id ∷ codes "sg-3" ∷ []) groups)
          ≡ selection (toggle_items (codes "sg-3" ∷ []) groups))
toggle_items-selection_example =
    toggle_items-selection (codes "sg-3" ∷ []) groups (third_IsItem, tt)

abbrev eu : Text
eu = codes "eu-west-1"

abbrev us : Text
us = codes "us-east-1"

abbrev serve : Text → Reply
serve r = listed (record { id = r; label = [] } ∷ [])

-- The region changes before the first list is there.
abbrev settled : Lookup
settled =
    answer (serve us)
      (record (answer (serve eu)
        (record (set_region us (open_lookup eu groups)) { pending = us ∷ [] })) { pending = [] })

settled-Reach : Reach serve true settled
unfolding open_lookup set_region answer
settled-Reach = answered us [] (answered eu (us ∷ []) (moved us (opened eu groups)) refl) refl

Reach-listed_example : shown settled.select ≡ (items_of (serve settled.region), false)
unfolding open_lookup set_region answer
Reach-listed_example = Reach-listed serve true settled settled-Reach refl
