-- ===== src/Rules/Presets.antt =====
-- The protocol and the ports of a rule are those of its type.
use Prim.Native.String.{String}
use wolkvorm.Base.{
  ℕ, List, [], ◌∷◌, Option, none, some, Bool, true, ◌&&◌, ◌==◌, ==-iff, string_eq, Bool-cases, Text,
  codes, not, text_eq, All, All-append, All-update_at, All-remove_at, ◌≡◌, ◌⊎◌, inl, inr, refl, ap,
  ◌∙◌, arith,
}
use wolkvorm.Text.{includes, split, trim, is_nonempty}
use wolkvorm.Rules.{
  number, Rule, Preset, find_preset, default_rule, set_ports, fill, Edit, edit, type_edit,
  cidr_edit, description_edit, custom, parse_port, add_rule, remove_rule, update_rule,
  is_custom_port, type_ports, ports_of, choose_source, is_anywhere, leave_cidr, when, Event, added,
  removed, type_chosen, ports_typed, source_chosen, cidr_typed, cidr_left, cidr_reset,
  description_typed, step, run,
}

-- If the rule's type is that of a preset, its protocol is the preset's, and so are its ports if the
-- preset has any.
abbrev pub IsPreset : Rule → Type 0
IsPreset r =
    (p : Preset)
    → find_preset r.type ≡ some p
    → (r.protocol ≡ p.protocol)
      × ((from to : ℕ)
          → p.ports ≡ some (from, to)
          → (r.from_port ≡ number from) × (r.to_port ≡ number to))

-- A custom type has no ports of its own.
custom_ports :
    (type : String)
    → (type ≡ "Custom TCP") ⊎ (type ≡ "Custom UDP")
    → (p : Preset) → find_preset type ≡ some p
    → p.ports ≡ none
unfolding find_preset
custom_ports type (inl tcp) p h =
    let q : some (custom "Custom TCP" "tcp") ≡ some p = rw tcp at h in cc
custom_ports type (inr udp) p h =
    let q : some (custom "Custom UDP" "udp") ≡ some p = rw udp at h in cc

set_ports_lem :
    (o : Option (ℕ × ℕ)) (r : Rule)
    → ((set_ports o r).type ≡ r.type)
      × ((set_ports o r).protocol ≡ r.protocol)
      × ((from to : ℕ)
          → o ≡ some (from, to)
          → ((set_ports o r).from_port ≡ number from) × ((set_ports o r).to_port ≡ number to))
set_ports_lem none r = (refl, refl, λ from to e. cc)
set_ports_lem (some (a, b)) r = (
  refl,
  refl,
  λ from to e.
      let pair : ◌≡◌ {A = ℕ × ℕ} (a, b) (from, to) = cc in
      (ap (λ q. number q.0) pair, ap (λ q. number q.1) pair),
)

fill-type : (o : Option Preset) (r : Rule) → (fill o r).type ≡ r.type
unfolding fill
fill-type none r = refl
fill-type (some p) r =
    let (type, _, _) = set_ports_lem p.ports (record r { protocol = p.protocol }) in type

fill-some :
    (r : Rule) (o : Option Preset) (p : Preset)
    → o ≡ some p
    → ((fill o r).protocol ≡ p.protocol)
      × ((from to : ℕ)
          → p.ports ≡ some (from, to)
          → ((fill o r).from_port ≡ number from) × ((fill o r).to_port ≡ number to))
unfolding fill
fill-some r o p h =
    let (_, protocol, ports) = set_ports_lem p.ports (record r { protocol = p.protocol }) in
    rw h (protocol, ports)

fill-IsPreset : (r : Rule) → IsPreset (fill (find_preset r.type) r)
fill-IsPreset r p h =
    fill-some r (find_preset r.type) p (rw (fill-type (find_preset r.type) r) at h)

edit-IsPreset : (e : Edit) (r : Rule) → IsPreset r → IsPreset (edit e r)
unfolding edit
edit-IsPreset (type_edit t) r h = fill-IsPreset (record r { type = t })
edit-IsPreset (cidr_edit s) r h = h
edit-IsPreset (description_edit s) r h = h

ports_of-type : (parts : List Text) (r : Rule) → (ports_of parts r).type ≡ r.type
unfolding ports_of
ports_of-type [] r = refl
ports_of-type (a ∷ []) r = refl
ports_of-type (a ∷ b ∷ more) r = refl

ports_of-protocol : (parts : List Text) (r : Rule) → (ports_of parts r).protocol ≡ r.protocol
unfolding ports_of
ports_of-protocol [] r = refl
ports_of-protocol (a ∷ []) r = refl
ports_of-protocol (a ∷ b ∷ more) r = refl

-- A change of the ports of a rule with a custom type.
custom-IsPreset :
    (r r' : Rule)
    → is_custom_port r ≡ true
    → r'.type ≡ r.type
    → r'.protocol ≡ r.protocol
    → IsPreset r
    → IsPreset r'
unfolding is_custom_port
custom-IsPreset r r' shown type protocol h p found =
    let same : find_preset r.type ≡ some p = rw type at found in
    let kind : (r.type ≡ "Custom TCP") ⊎ (r.type ≡ "Custom UDP") =
      ground (arith, ==-iff r.type "Custom TCP", ==-iff r.type "Custom UDP") in
    let no_ports = custom_ports r.type kind p same in
    let (as_preset, _) = h p same in (protocol ∙ as_preset, λ from to e. cc)

type_ports-IsPreset :
    (s : Text) (r : Rule) → IsPreset r → IsPreset (when is_custom_port (type_ports s) r)
unfolding type_ports
type_ports-IsPreset s r h = elim (Bool-cases (is_custom_port r)) [
  | inr hidden ↦ rw hidden h
  | inl shown ↦ rw shown (elim (Bool-cases (includes s (b'-' ∷ []))) [
    | inl range ↦ rw range (
        custom-IsPreset r (ports_of (split b'-' s) r) shown (ports_of-type (split b'-' s) r)
          (ports_of-protocol (split b'-' s) r) h)
    | inr single ↦ rw single (
        custom-IsPreset r
          (record r { from_port = number (parse_port s); to_port = number (parse_port s) }) shown
          refl refl h)
  ])
]

-- What changes only the source keeps the rest.
when-IsPreset :
    (shown : Rule → Bool) (f : Rule → Rule)
    → ((r : Rule) → IsPreset r → IsPreset (f r))
    → (r : Rule) → IsPreset r
    → IsPreset (when shown f r)
when-IsPreset shown f step r h = elim (Bool-cases (shown r)) [
  | inl seen ↦ rw seen (step r h)
  | inr unseen ↦ rw unseen h
]

choose_source-IsPreset : (s : Text) (r : Rule) → IsPreset r → IsPreset (choose_source s r)
unfolding choose_source edit
choose_source-IsPreset s r h = elim (Bool-cases (s == codes "custom")) [
  | inl a ↦ rw a h
  | inr b ↦ rw b h
]

leave_cidr-IsPreset : (r : Rule) → IsPreset r → IsPreset (leave_cidr r)
unfolding leave_cidr edit
leave_cidr-IsPreset r h =
    elim (Bool-cases (is_nonempty (trim r.cidr) && not (includes (trim r.cidr) (codes "/")))) [
      | inr kept ↦ rw kept h
      | inl fixed ↦ elim (Bool-cases (trim r.cidr == codes "0.0.0.0")) [
        | inl zero ↦ rw (fixed, zero) h
        | inr host ↦ rw (fixed, host) h
      ]
    ]

default_rule-IsPreset : IsPreset default_rule
unfolding default_rule find_preset
default_rule-IsPreset p h =
    let q : some (custom "Custom TCP" "tcp") ≡ some p = h in (cc, λ from to e. cc)

step-IsPreset : (rules : List Rule) (e : Event) → All IsPreset rules → All IsPreset (step rules e)
unfolding step add_rule remove_rule update_rule
step-IsPreset rules added h =
    All-append IsPreset rules (default_rule ∷ []) h (default_rule-IsPreset, tt)
step-IsPreset rules (removed i) h = All-remove_at IsPreset rules i h
step-IsPreset rules (type_chosen i t) h =
    All-update_at IsPreset (edit (type_edit t)) (edit-IsPreset (type_edit t)) rules i h
step-IsPreset rules (ports_typed i s) h =
    All-update_at IsPreset (when is_custom_port (type_ports s)) (type_ports-IsPreset s) rules i h
step-IsPreset rules (source_chosen i s) h =
    All-update_at IsPreset (when is_anywhere (choose_source s))
      (when-IsPreset is_anywhere (choose_source s) (choose_source-IsPreset s)) rules i h
step-IsPreset rules (cidr_typed i s) h =
    All-update_at IsPreset (when (λ r. not (is_anywhere r)) (edit (cidr_edit s)))
      (when-IsPreset (λ r. not (is_anywhere r)) (edit (cidr_edit s)) (edit-IsPreset (cidr_edit s)))
      rules i h
step-IsPreset rules (cidr_left i) h =
    All-update_at IsPreset (when (λ r. not (is_anywhere r)) leave_cidr)
      (when-IsPreset (λ r. not (is_anywhere r)) leave_cidr leave_cidr-IsPreset) rules i h
step-IsPreset rules (cidr_reset i) h =
    All-update_at IsPreset (when (λ r. not (is_anywhere r)) (edit (cidr_edit (codes "0.0.0.0/0"))))
      (when-IsPreset (λ r. not (is_anywhere r)) (edit (cidr_edit (codes "0.0.0.0/0")))
        (edit-IsPreset (cidr_edit (codes "0.0.0.0/0"))))
      rules i h
step-IsPreset rules (description_typed i s) h =
    All-update_at IsPreset (edit (description_edit s)) (edit-IsPreset (description_edit s)) rules i
      h

-- Whatever the user does in the editor, a rule whose type is a preset keeps the preset's protocol,
-- and its ports where the preset has any, if all rules do at first.
pub run-IsPreset :
    (es : List Event) (rules : List Rule) → All IsPreset rules → All IsPreset (run rules es)
unfolding run
run-IsPreset [] rules h = h
run-IsPreset (e ∷ es) rules h = run-IsPreset es (step rules e) (step-IsPreset rules e h)
