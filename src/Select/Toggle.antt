-- ===== src/Select/Toggle.antt =====
-- Toggling and removing ids of a multiple select.
use wolkvorm.Base.{
  List, [], ◌∷◌, Bool, true, false, not, ◌||◌, ◌==◌, ==-iff, text_eq, if◌then◌else◌, Bool-cases,
  Text, All, All-append, select, ◌≡◌, refl, ap, ◌∙◌, inl, inr, arith,
}
use wolkvorm.Base.Sets.{has, add, delete, add_all, has-add, has-delete}
use wolkvorm.Text.{comma_items}
use wolkvorm.Text.Items.{IsItem, comma_items-IsItem, comma_items-join}
use wolkvorm.Select.{Select, selected_values, flip, toggle_item, remove_item}

module _ (P : Text → Type 0) where
  All-add : (x : Text) (s : List Text) → P x → All P s → All P (add x s)
  unfolding add
  All-add x s p h = elim (Bool-cases (has x s)) [
    | inl there ↦ rw there h
    | inr new ↦ rw new (All-append P s (x ∷ []) h (p, tt))
  ]

  All-add_all : (s xs : List Text) → All P s → All P xs → All P (add_all s xs)
  unfolding add_all
  All-add_all s [] h k = h
  All-add_all s (x ∷ xs) h (p, k) = All-add_all (add x s) xs (All-add x s p h) k

  All-delete : (x : Text) (s : List Text) → All P s → All P (delete x s)
  unfolding delete
  All-delete x [] h = tt
  All-delete x (y ∷ s) (p, h) = elim (Bool-cases (y == x)) [
    | inl same ↦ rw same (All-delete x s h)
    | inr other ↦ rw other (p, All-delete x s h)
  ]

  All-select : (q : Text → Bool) (s : List Text) → All P s → All P (select q s)
  All-select q [] h = tt
  All-select q (y ∷ s) (p, h) = elim (Bool-cases (q y)) [
    | inl kept ↦ rw kept (p, All-select q s h)
    | inr dropped ↦ rw dropped (All-select q s h)
  ]

has-add_bool : (x y : Text) (s : List Text) → has x (add y s) ≡ (has x s || (y == x))
has-add_bool x y s = ground (arith, has-add x y s, ==-iff y x)

has-add_all : (x : Text) (s xs : List Text) → has x (add_all s xs) ≡ (has x s || has x xs)
unfolding add_all has
has-add_all x s [] = ground arith
has-add_all x s (y ∷ xs) = ground (arith, has-add_all x (add y s) xs, has-add_bool x y s)

pub has-select_other :
    (x id : Text) (s : List Text)
    → has x (select (λ v. not (v == id)) s) ≡ (if id == x then false else has x s)
unfolding has
has-select_other x id [] = ground arith
has-select_other x id (y ∷ s) =
    ground (arith, has-select_other x id s, ==-iff y id, ==-iff y x, ==-iff id x)

pub has-flip :
    (x id : Text) (s : List Text)
    → has x (flip id s) ≡ (if id == x then not (has id s) else has x s)
unfolding flip
has-flip x id s = elim (Bool-cases (has id s)) [
  | inl there ↦ rw (there, has-delete x id s) (ground (arith, there))
  | inr new ↦ rw (new, has-add_bool x id s) (ground (arith, new, ==-iff id x, ap (λ y. has y s)))
]

has-set : (x : Text) (xs : List Text) → has x (add_all [] xs) ≡ has x xs
unfolding has
has-set x xs = has-add_all x [] xs

All-flip : (id : Text) (s : List Text) → IsItem id → All IsItem s → All IsItem (flip id s)
unfolding flip
All-flip id s p h = elim (Bool-cases (has id s)) [
  | inl there ↦ rw there (All-delete IsItem id s h)
  | inr new ↦ rw new (All-add IsItem id s p h)
]

-- In a multiple select, toggling an id (a non-empty text with no commas and no white space around
-- it) selects it if it was not selected and takes it away if it was, and changes no other id.
pub toggle_item-selected_values :
    (id x : Text) (s : Select)
    → IsItem id
    → has x (selected_values true (toggle_item true id s).value) ≡ (
        if id == x
        then not (has id (selected_values true s.value))
        else has x (selected_values true s.value))
unfolding toggle_item selected_values
toggle_item-selected_values id x s item =
    let current = comma_items s.value in
    let set = add_all [] current in
    let valid = All-add_all IsItem [] current tt (comma_items-IsItem s.value) in
    ap (has x) (comma_items-join (flip id set) (All-flip id set item valid))
    ∙ has-flip x id set
    ∙ rw (has-set id current, has-set x current) refl

-- In a multiple select, removing an id takes away that id and no other.
pub remove_item-selected_values :
    (id x : Text) (s : Select)
    → has x (selected_values true (remove_item true id s).value)
      ≡ (if id == x then false else has x (selected_values true s.value))
unfolding remove_item selected_values
remove_item-selected_values id x s =
    let current = comma_items s.value in
    ap (has x) (
      comma_items-join (select (λ v. not (v == id)) current)
        (All-select IsItem (λ v. not (v == id)) current (comma_items-IsItem s.value)))
    ∙ has-select_other x id current
