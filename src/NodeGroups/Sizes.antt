-- ===== src/NodeGroups/Sizes.antt =====
-- The size of a group is one of its family's.
use wolkvorm.Base.{
  ℕ, zero, suc, ◌+◌, ◌≤◌, ◌<◌, List, [], ◌∷◌, ◌++◌, Option, none, some, Option-cases, true, ◌==◌,
  ==-iff, text_eq, Bool-cases, ltb, Text, codes, find_first, length, length-append, update_at,
  remove_at, All, All-append, All-update_at, All-remove_at, ◌≡◌, refl, sym, subst, ap, ◌∙◌, inl,
  inr, arith,
}
use wolkvorm.Base.Sets.{has}
use wolkvorm.Text.{is_nonempty}
use wolkvorm.Text.Number.{show_number}
use wolkvorm.NodeGroups.{
  pos, Family, instance_families, NodeGroup, default_node_group, add_group, remove_group,
  find_family, first_size, fit, set_family, get_sizes_for_family, shown_family, set_size,
  choose_family, or_default, Event, added, removed, name_typed, capacity_chosen, family_chosen,
  size_chosen, min_typed, max_typed, desired_typed, step, run, node_groups_from_value,
}

-- The group's size is among the options that the size select shows for its family.
abbrev pub IsSized : NodeGroup → Type 0
IsSized g = has g.size (get_sizes_for_family (shown_family g)) ≡ true

-- Each family has a name, and its first size is one of its sizes.
abbrev IsProper : Family → Type 0
IsProper f = (is_nonempty f.value ≡ true) × (has (first_size f.sizes) f.sizes ≡ true)

families-IsProper : All IsProper instance_families
unfolding instance_families has
families-IsProper = ground arith

find_first-All :
    (value : Text) (fs : List Family) (f : Family)
    → All IsProper fs
    → find_first (λ x. x.value == value) fs ≡ some f
    → IsProper f × (f.value ≡ value)
find_first-All value [] f h e = cc
find_first-All value (g ∷ fs) f (p, h) e = elim (Bool-cases (g.value == value)) [
  | inr other ↦ find_first-All value fs f h (rw other at e)
  | inl same ↦
      let g_eq : g ≡ f = cc (rw same at e) in
      subst (λ x. IsProper x × (x.value ≡ value)) g_eq (p, (==-iff g.value value).0 same)
]

fit-family : (o : Option Family) (g : NodeGroup) → (fit o g).family ≡ g.family
unfolding fit
fit-family none g = refl
fit-family (some f) g = elim (Bool-cases (has g.size f.sizes)) [
  | inl a ↦ rw a refl
  | inr b ↦ rw b refl
]

fit-size : (f : Family) (g : NodeGroup) → IsProper f → has (fit (some f) g).size f.sizes ≡ true
unfolding fit
fit-size f g p = elim (Bool-cases (has g.size f.sizes)) [ inl a ↦ rw a a | inr b ↦ rw b p.1 ]

shown_family-family :
    (g : NodeGroup) (value : Text)
    → g.family ≡ value
    → is_nonempty value ≡ true
    → shown_family g ≡ value
shown_family-family g value e full = rw e (rw full refl)

fit-IsSized :
    (value : Text) (f : Family) (g : NodeGroup)
    → find_family value ≡ some f
    → IsSized (fit (some f) (record g { family = value }))
unfolding get_sizes_for_family find_family
fit-IsSized value f g found =
    let placed = record g { family = value } in
    let (proper, name) = find_first-All value instance_families f families-IsProper found in
    let shown =
      shown_family-family (fit (some f) placed) value (fit-family (some f) placed)
        (ap is_nonempty (sym name) ∙ proper.0) in
    let sizes : get_sizes_for_family value ≡ f.sizes =
      ap
        (λ o. elim o [
          | none ↦ codes "medium" ∷ codes "large" ∷ codes "xlarge" ∷ []
          | some k ↦ k.sizes
        ])
        found in
    ap (λ v. has (fit (some f) placed).size (get_sizes_for_family v)) shown
    ∙ ap (has (fit (some f) placed).size) sizes
    ∙ fit-size f placed proper

choose_family-IsSized : (value : Text) (g : NodeGroup) → IsSized g → IsSized (choose_family value g)
unfolding choose_family set_family
choose_family-IsSized value g h =
    let offer : Option Family → NodeGroup =
      λ o. elim o [ none ↦ g | some f ↦ set_family value g ] in
    elim (Option-cases (find_family value)) [
      | inl missing ↦ subst IsSized (sym (ap offer missing)) h
      | inr (f, found) ↦
          subst IsSized (sym (ap offer found ∙ ap (λ o. fit o (record g { family = value })) found))
            (fit-IsSized value f g found)
    ]

set_size-IsSized : (size : Text) (g : NodeGroup) → IsSized g → IsSized (set_size size g)
unfolding set_size
set_size-IsSized size g h = elim (Bool-cases (has size (get_sizes_for_family (shown_family g)))) [
  | inl offered ↦ rw offered offered
  | inr other ↦ rw other h
]

-- At least one group, and all sized.
abbrev pub AreSized : List NodeGroup → Type 0
AreSized groups = (1 ≤ length groups) × All IsSized groups

length-update_at :
    (groups : List NodeGroup) (i : ℕ) (f : NodeGroup → NodeGroup)
    → length (update_at groups i f) ≡ length groups
length-update_at [] i f = refl
length-update_at (g ∷ gs) zero f = refl
length-update_at (g ∷ gs) (suc i) f = ap suc (length-update_at gs i f)

length-remove_at :
    (groups : List NodeGroup) (i : ℕ) → length groups ≤ suc (length (remove_at groups i))
length-remove_at [] i = omega arith
length-remove_at (g ∷ gs) zero = omega arith
length-remove_at (g ∷ gs) (suc i) = omega (arith, length-remove_at gs i)

update-AreSized :
    (f : NodeGroup → NodeGroup)
    → ((g : NodeGroup) → IsSized g → IsSized (f g))
    → (groups : List NodeGroup) (i : ℕ) → AreSized groups
    → AreSized (update_at groups i f)
update-AreSized f keeps groups i (n, h) =
    (omega (arith, n, length-update_at groups i f), All-update_at IsSized f keeps groups i h)

default-IsSized : IsSized default_node_group
unfolding default_node_group get_sizes_for_family find_family has
default-IsSized = refl

step-AreSized : (groups : List NodeGroup) (e : Event) → AreSized groups → AreSized (step groups e)
unfolding step add_group remove_group
step-AreSized groups added (n, h) =
    let g = record default_node_group {
      name = codes "group-" ++ show_number (length groups + 1);
    } in
    (
      omega (arith, n, length-append groups (g ∷ [])),
      All-append IsSized groups (g ∷ []) h (unfold default_node_group in default-IsSized, tt),
    )
step-AreSized groups (removed i) (n, h) = elim (Bool-cases (ltb 1 (length groups))) [
  | inl several ↦ rw several (
    (let less : 1 < length groups = ground arith in omega (arith, less, length-remove_at groups i)),
    All-remove_at IsSized groups i h,
  )
  | inr single ↦ rw single (n, h)
]
step-AreSized groups (name_typed i t) h =
    update-AreSized (λ g. record g { name = t }) (λ g k. k) groups i h
step-AreSized groups (capacity_chosen i t) h =
    update-AreSized (λ g. record g { capacity_type = t }) (λ g k. k) groups i h
step-AreSized groups (family_chosen i t) h =
    update-AreSized (choose_family t) (choose_family-IsSized t) groups i h
step-AreSized groups (size_chosen i t) h =
    update-AreSized (set_size t) (set_size-IsSized t) groups i h
step-AreSized groups (min_typed i n) h =
    update-AreSized (λ g. record g { min_size = or_default (pos 0) n }) (λ g k. k) groups i h
step-AreSized groups (max_typed i n) h =
    update-AreSized (λ g. record g { max_size = or_default (pos 1) n }) (λ g k. k) groups i h
step-AreSized groups (desired_typed i n) h =
    update-AreSized (λ g. record g { desired_size = or_default (pos 0) n }) (λ g k. k) groups i h

run-keeps_AreSized :
    (es : List Event) (groups : List NodeGroup) → AreSized groups → AreSized (run groups es)
unfolding run
run-keeps_AreSized [] groups h = h
run-keeps_AreSized (e ∷ es) groups h =
    run-keeps_AreSized es (step groups e) (step-AreSized groups e h)

-- From the groups that an empty value gives, the editor always has at least one group, and the size
-- of each is one that its family offers.
pub run-AreSized : (es : List Event) → AreSized (run (node_groups_from_value []) es)
unfolding node_groups_from_value
run-AreSized es =
    run-keeps_AreSized es (default_node_group ∷ []) (omega arith, (default-IsSized, tt))
