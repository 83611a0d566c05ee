-- ===== src/Select/Region/InOrder.antt =====
-- What the select lists when the answers come in the order of the requests.
use wolkvorm.Base.{
  List, [], ◌∷◌, Bool, true, false, ◌==◌, text_eq, Bool-cases, Text, ◌≡◌, refl, ap, ◌∙◌, inl, inr,
}
use wolkvorm.Base.Newest.{IsNewest, IsNewest-append, IsNewest-answer}
use wolkvorm.Select.{
  Item, Select, Reply, listed, malformed, refused, failed, fetch_items, fetched, toggle_item,
  remove_item, outside_click,
}
use wolkvorm.Select.Region.{
  Lookup, ask, open_lookup, set_region, answer, Edit, item_clicked, tag_removed, typed, searched,
  trigger_clicked, clicked_outside, manual_clicked, browse_clicked, edit,
}

-- The resources of an answer.
abbrev pub items_of : Reply → List Item
items_of (listed items) = items
items_of malformed = []
items_of (refused message) = []
items_of (failed message) = []

-- What the select lists, and whether it says that it is loading.
abbrev pub shown : Select → List Item × Bool
shown s = (s.items, s.loading)

toggle_item-shown :
    (multi : Bool) (id : Text) (s : Select) → shown (toggle_item multi id s) ≡ shown s
unfolding toggle_item
toggle_item-shown true id s = refl
toggle_item-shown false id s = refl

edit-shown : (multi : Bool) (e : Edit) (s : Select) → shown (edit multi e s) ≡ shown s
unfolding edit remove_item outside_click
edit-shown multi (item_clicked id) s = toggle_item-shown multi id s
edit-shown multi (tag_removed id) s = refl
edit-shown multi (typed v) s = refl
edit-shown multi (searched t) s = refl
edit-shown multi trigger_clicked s = refl
edit-shown multi clicked_outside s = refl
edit-shown multi manual_clicked s = refl
edit-shown multi browse_clicked s = refl

fetched-shown : (reply : Reply) (s : Select) → shown (fetched reply s) ≡ (items_of reply, false)
unfolding fetched
fetched-shown (listed items) s = refl
fetched-shown malformed s = refl
fetched-shown (refused message) s = refl
fetched-shown (failed message) s = refl

module _ (serve : Text → Reply) (multi : Bool) where
  -- The select with its requests, where the answer for a region is the same all the time.
  pub data Reach : Lookup → Type 0 where
    opened : (region : Text) (s : Select) → Reach (open_lookup region s)
    moved : (r : Text) {l : Lookup} → Reach l → Reach (set_region r l)
    refreshed : {l : Lookup} → Reach l → Reach (ask l)
    edited : (e : Edit) {l : Lookup} → Reach l → Reach (record l { select = edit multi e l.select })
    answered :
        (r : Text) (rs : List Text) {l : Lookup}
        → Reach l
        → l.pending ≡ r ∷ rs
        → Reach (answer (serve r) (record l { pending = rs }))

  abbrev served : Text → List Item × Bool
  served r = (items_of (serve r), false)

  abbrev IsOf : Lookup → Text → Type 0
  IsOf l r = r ≡ l.region

  abbrev IsFresh : Lookup → Type 0
  IsFresh l = IsNewest served (IsOf l) l.pending (shown l.select)

  ask-IsFresh : (l : Lookup) → IsFresh (ask l)
  unfolding ask
  ask-IsFresh l =
      IsNewest-append served (IsOf l) l.pending l.region (shown (fetch_items l.select)) refl

  set_region-IsFresh : (r : Text) (l : Lookup) → IsFresh l → IsFresh (set_region r l)
  unfolding set_region
  set_region-IsFresh r l h = elim (Bool-cases (r == l.region)) [
    | inl same ↦ rw same h
    | inr differ ↦ rw differ (ask-IsFresh (record l { region = r }))
  ]

  Reach-IsFresh : {l : Lookup} → Reach l → IsFresh l
  unfolding open_lookup answer
  Reach-IsFresh (opened region s) =
      ask-IsFresh (record { region = region; select = s; pending = [] })
  Reach-IsFresh (moved r {l} k) = set_region-IsFresh r l (Reach-IsFresh k)
  Reach-IsFresh (refreshed {l} k) = ask-IsFresh l
  Reach-IsFresh (edited e {l} k) = rw (edit-shown multi e l.select) (Reach-IsFresh k)
  Reach-IsFresh (answered r rs {l} k e) =
      rw (fetched-shown (serve r) l.select)
        (IsNewest-answer served (IsOf l) r rs (shown l.select) (rw e at (Reach-IsFresh k)))

  -- If the answers come in the order of the requests, and the one for a region is the same all the
  -- time, then whenever no request is under way, the select
  -- lists the resources of the region that the form has and does not say that it is loading,
  -- whatever is selected, typed and searched meanwhile.
  pub Reach-listed :
      (l : Lookup) → Reach l → l.pending ≡ [] → shown l.select ≡ (items_of (serve l.region), false)
  Reach-listed l k e = let (r, same, s) = rw e at (Reach-IsFresh k) in s ∙ ap served same
