-- ===== src/NodeGroups/Tests.antt =====
-- A session of the editor.
use wolkvorm.Base.{List, [], ◌∷◌, codes, ◌≡◌, refl}
use wolkvorm.Text.{split}
use wolkvorm.NodeGroups.{
  Event, added, family_chosen, removed, run, node_groups_from_value, parse_instance_type,
}
use wolkvorm.NodeGroups.Sizes.{AreSized, run-AreSized}

parsed : parse_instance_type (codes "m5.large") ≡ (codes "m5", codes "large")
unfolding parse_instance_type split
parsed = refl

abbrev edits : List Event
edits = added ∷ family_chosen 1 (codes "p3") ∷ removed 0 ∷ removed 0 ∷ []

run-AreSized_example : AreSized (run (node_groups_from_value []) edits)
run-AreSized_example = run-AreSized edits
