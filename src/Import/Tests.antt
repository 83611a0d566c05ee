-- ===== src/Import/Tests.antt =====
-- Two scans.
use Prim.Native.String.{String}
use wolkvorm.Base.{List, [], ◌∷◌, string_eq}
use wolkvorm.Import.{
  Resource, Import, open_import, found, Event, type_clicked, scan_clicked, scan_ended, toggled,
  configure_clicked, run,
}
use wolkvorm.Import.Selection.{IsChosen, run-IsChosen}

abbrev resource : String → Resource
resource id = record { id = id; name = "" }

abbrev clicks : List Event
clicks =
    type_clicked "ec2"
    ∷ scan_clicked
    ∷ scan_ended (found (resource "i-1" ∷ []) 1 0)
    ∷ toggled "i-1"
    ∷ configure_clicked
    ∷ []

run-IsChosen_example : IsChosen (run open_import clicks)
run-IsChosen_example = run-IsChosen clicks

-- `vpc-1` was selected in an earlier scan.
abbrev stale : Import
stale = record open_import { selected = "vpc-1" ∷ [] }

abbrev two : Import
two = record stale { resources = resource "i-1" ∷ resource "i-2" ∷ [] }
