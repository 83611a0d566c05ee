-- ===== src/Form/Validate/Lists.antt =====
-- Inputs that hold a list of ids.
use wolkvorm.Base.{
  List, [], ◌∷◌, none, some, true, false, ◌||◌, ◌==◌, ==-iff, text_eq, Bool-cases, Text, codes, All,
  ◌≡◌, ◌↔◌, refl, ap, inl, inr, arith,
}
use wolkvorm.Text.{trim, comma_items, is_nonempty}
use wolkvorm.Text.Regex.{Regex, test, Matches, test_iff}
use wolkvorm.Form.Validate.{
  text, Field, cidr, hex_id, is_missing, is_falsy, check_items, is_sg_list, is_cidr_list,
  check_text, check_value, validate_field,
}

check_items_iff :
    (r : Regex) (message : Text) (ts : List Text)
    → (check_items r message ts ≡ none) ↔ All (Matches r) ts
unfolding check_items
check_items_iff r message [] = (λ _. tt, λ _. refl)
check_items_iff r message (t ∷ ts) =
    let (sound, complete) = check_items_iff r message ts in
    let (accepted, matched) = test_iff r t in
    elim (Bool-cases (test r t)) [
      | inl ok ↦ rw ok (λ e. (accepted ok, sound e), λ (_, k). complete k)
      | inr bad ↦ rw bad (λ e. cc, λ (m, _). cc (matched m))
    ]

nonempty_of_trim : (t : Text) → is_nonempty (trim t) ≡ true → is_nonempty t ≡ true
unfolding trim
nonempty_of_trim [] h = cc
nonempty_of_trim (c ∷ t) h = refl

validate_field-text :
    (f : Field) (t : Text)
    → is_nonempty (trim t) ≡ true
    → validate_field f (some (text t)) ≡ check_text f t
unfolding validate_field check_value is_missing is_falsy
validate_field-text f t h = let full = nonempty_of_trim t h in ground (arith, full)

-- A security group list that is not blank is accepted exactly when each of its ids, which commas
-- separate, is `sg-` with hexadecimal digits after it.
pub validate_field-sg_list :
    (f : Field) (t : Text)
    → is_sg_list f ≡ true
    → is_nonempty (trim t) ≡ true
    → (validate_field f (some (text t)) ≡ none)
      ↔ All (Matches (hex_id (codes "sg-"))) (comma_items t)
unfolding check_text
validate_field-sg_list f t sg h = rw (validate_field-text f t h) (
    rw (sg, h)
      (check_items_iff (hex_id (codes "sg-")) (codes "Invalid security group ID: ")
        (comma_items t)))

sg_list_of_cidr_list : (f : Field) → is_cidr_list f ≡ true → is_sg_list f ≡ false
sg_list_of_cidr_list f h = elim (Bool-cases (is_sg_list f)) [
  | inr other ↦ other
  | inl sg ↦
      let name = (==-iff f.name (codes "vpc_security_group_ids")).0 sg in
      cc (
        ap
            (λ n.
              n == codes "public_subnets"
              || n == codes "private_subnets"
              || n == codes "database_subnets")
            name,
        h,
      )
]

-- A list of subnets that is not blank is accepted exactly when each of its items, which commas
-- separate, is four groups of one to three digits with dots between them, and a slash and one or two
-- digits after them.
pub validate_field-cidr_list :
    (f : Field) (t : Text)
    → is_cidr_list f ≡ true
    → is_nonempty (trim t) ≡ true
    → (validate_field f (some (text t)) ≡ none) ↔ All (Matches cidr) (comma_items t)
unfolding check_text
validate_field-cidr_list f t list h =
    let other = sg_list_of_cidr_list f list in
    rw (validate_field-text f t h)
      (rw (other, list, h) (check_items_iff cidr (codes "Invalid CIDR: ") (comma_items t)))
