-- ===== src/Select/Selection.antt =====
-- What is selected in a multiple select, whatever the order in which its value lists it.
use mathlib.Core.List.Perm
use mathlib.Core.List.{Perm, foldr}
use mathlib.Core.Quot
use mathlib.Core.Quot.{Quot, Quot-set}
use wolkvorm.Base.{
  List, [], ◌∷◌, Bool, true, false, not, select, Bool-cases, inl, inr, ◌==◌, ==-iff, text_eq,
  if◌then◌else◌, Text, All, ◌≡◌, refl, sym, ap, ◌∙◌, arith,
}
use wolkvorm.Base.Sets.{has}
use wolkvorm.Text.Items.{IsItem}
use wolkvorm.Select.{Select, selected_values, toggle_item}
use wolkvorm.Select.Toggle.{has-select_other, toggle_item-selected_values}

abbrev SameIds : List Text → List Text → Type 0
SameIds xs ys = (x : Text) → has x xs ≡ has x ys

abbrev pub Selection : Type 0
Selection = Quot SameIds

unfoldable pub selection : Select → Selection
selection s = Quot.mk (selected_values true s.value)

unfoldable pub member : Text → Selection → Bool
member x = Quot.lift (hlevel) (has x) (λ xs ys h. h x)

-- The ids but one.
without : Text → List Text → List Text
without id xs = select (λ y. not (y == id)) xs

-- The ids with one put in front where it was not among them, and without it where it was.
exchange : Text → List Text → List Text
unfolding without
exchange id xs = if has id xs then without id xs else id ∷ xs

has-exchange :
    (x id : Text) (xs : List Text)
    → has x (exchange id xs) ≡ (if id == x then not (has id xs) else has x xs)
unfolding exchange has
has-exchange x id xs = elim (Bool-cases (has id xs)) [
  | inl there ↦ rw there (has-select_other x id xs ∙ ground (arith, there))
  | inr new ↦ rw new (ground (arith, new, ==-iff id x, ap (λ y. has y xs)))
]

exchange-SameIds :
    (id : Text) (xs ys : List Text) → SameIds xs ys → SameIds (exchange id xs) (exchange id ys)
exchange-SameIds id xs ys h x = rw (has-exchange x id xs, has-exchange x id ys, h id, h x) refl

-- Puts the id into the set if it is not in it, and takes it out if it is.
pub toggle : Text → Selection → Selection
toggle id =
    Quot.lift Quot-set (λ xs. Quot.mk (exchange id xs))
      (λ xs ys h. Quot.sound (exchange-SameIds id xs ys h))

-- How often an id is clicked on is odd.
unfoldable pub is_odd : Text → List Text → Bool
is_odd x [] = false
is_odd x (id ∷ ids) = if id == x then not (is_odd x ids) else is_odd x ids

pub member-toggle :
    (x id : Text) (q : Selection)
    → member x (toggle id q) ≡ (if id == x then not (member id q) else member x q)
unfolding member toggle
member-toggle x id = Quot.ind (λ _. hlevel) (has-exchange x id)

-- A selection is what it has.
pub Selection-ext : (p q : Selection) → ((x : Text) → member x p ≡ member x q) → p ≡ q
unfolding member
Selection-ext =
    Quot.ind (λ _. hlevel Quot-set) λ xs. Quot.ind (λ _. hlevel Quot-set) λ ys. Quot.sound

toggle_comm : (a b : Text) (q : Selection) → toggle a (toggle b q) ≡ toggle b (toggle a q)
toggle_comm a b q = Selection-ext (toggle a (toggle b q)) (toggle b (toggle a q)) λ x. ground (
  arith,
  member-toggle x a (toggle b q),
  member-toggle a b q,
  member-toggle x b q,
  member-toggle x b (toggle a q),
  member-toggle b a q,
  member-toggle x a q,
  ==-iff a b,
  ==-iff b a,
  ==-iff a x,
  ==-iff b x,
)

toggle-toggle : (a : Text) (q : Selection) → toggle a (toggle a q) ≡ q
toggle-toggle a q = Selection-ext (toggle a (toggle a q)) q λ x. ground (
  arith,
  member-toggle x a (toggle a q),
  member-toggle a a q,
  member-toggle x a q,
  ==-iff a x,
  ==-iff a a,
)

-- `toggleItem` for each id of a list, the last first.
unfoldable pub toggle_items : List Text → Select → Select
toggle_items [] s = s
toggle_items (id ∷ ids) s = toggle_item true id (toggle_items ids s)

toggle_item-toggle :
    (id : Text) (s : Select)
    → IsItem id
    → selection (toggle_item true id s) ≡ toggle id (selection s)
toggle_item-toggle id s item =
    Selection-ext (selection (toggle_item true id s)) (toggle id (selection s)) λ x.
      unfold member in
      unfold selection in
      toggle_item-selected_values id x s item ∙ sym (member-toggle x id (selection s))

toggle_items-foldr :
    (ids : List Text) (s : Select)
    → All IsItem ids
    → selection (toggle_items ids s) ≡ foldr toggle (selection s) ids
unfolding toggle_items
toggle_items-foldr [] s h = refl
toggle_items-foldr (id ∷ ids) s (h, hs) =
    toggle_item-toggle id (toggle_items ids s) h ∙ ap (toggle id) (toggle_items-foldr ids s hs)

member-foldr :
    (x : Text) (ids : List Text) (q : Selection)
    → member x (foldr toggle q ids) ≡ (if is_odd x ids then not (member x q) else member x q)
unfolding is_odd
member-foldr x [] q = refl
member-foldr x (id ∷ ids) q = ground (
  arith,
  member-toggle x id (foldr toggle q ids),
  member-foldr x ids q,
  ==-iff id x,
  ap (λ y. member y (foldr toggle q ids)),
)

-- In a multiple select, clicking on ids one after another (each a non-empty text with no commas and
-- no white space around it) changes exactly what is clicked on an odd number of times: such an id is
-- selected afterwards if and only if it was not before, and any other if and only if it was. What is
-- selected is the set that putting in or taking out one id after another gives; the order of the
-- clicks makes no difference to it, and neither do two more clicks on one id.
pub toggle_items-selection :
    (ids : List Text) (s : Select)
    → All IsItem ids
    → ((x : Text)
        → has x (selected_values true (toggle_items ids s).value) ≡ (
            if is_odd x ids
            then not (has x (selected_values true s.value))
            else has x (selected_values true s.value)))
      × (selection (toggle_items ids s) ≡ foldr toggle (selection s) ids)
      × ((others : List Text)
          → All IsItem others
          → Perm others ids
          → selection (toggle_items others s) ≡ selection (toggle_items ids s))
      × ((id : Text)
          → IsItem id
          → selection (toggle_items (id ∷ id ∷ ids) s) ≡ selection (toggle_items ids s))
toggle_items-selection ids s h =
    let result = toggle_items-foldr ids s h in
    (
      λ x.
          unfold selection in
          unfold member in ap (member x) result ∙ member-foldr x ids (selection s),
      result,
      λ others k p.
          toggle_items-foldr others s k
          ∙ Perm.foldr-eq Quot-set toggle toggle_comm p (selection s)
          ∙ sym result,
      λ id item.
          toggle_items-foldr (id ∷ id ∷ ids) s (item, (item, h))
          ∙ toggle-toggle id (foldr toggle (selection s) ids)
          ∙ sym result,
    )
