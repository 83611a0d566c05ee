-- ===== src/Rules/Ports.antt =====
-- The text of the ports input, read back.
use wolkvorm.Base.{
  ℕ, [], ◌∷◌, ◌++◌, none, some, true, false, Bool-cases, eqb, Text, All-imp, ◌≡◌, ◌≢◌, refl, ap,
  ◌∙◌, inl, inr, arith,
}
use wolkvorm.Text.{includes, starts_with, join}
use wolkvorm.Text.Split.{IsWhole, split-join}
use wolkvorm.Text.Number.{
  show_number, parse_int, parse_int-show_number, show_number-IsDigit, IsDigit,
}
use wolkvorm.Rules.{number, Rule, or_blank, port_text, parse_port, ports_of, type_ports}

includes-whole : (sep : ℕ) (s : Text) → IsWhole sep s → includes s (sep ∷ []) ≡ false
unfolding includes starts_with
includes-whole sep [] h = refl
includes-whole sep (c ∷ s) h = ground (arith, h.0, includes-whole sep s h.1)

includes-part : (sep : ℕ) (p s : Text) → includes (p ++ (sep ∷ s)) (sep ∷ []) ≡ true
unfolding includes starts_with
includes-part sep [] s = ground arith
includes-part sep (c ∷ p) s = ground (arith, includes-part sep p s)

or_blank-IsWhole : (n : ℕ) → IsWhole b'-' (or_blank (number n))
unfolding or_blank
or_blank-IsWhole n = elim (Bool-cases (eqb n 0)) [
  | inl none_shown ↦ rw none_shown tt
  | inr shown ↦ rw shown (
      All-imp IsDigit (λ c. c ≢ b'-') (λ c d. ground arith) (show_number n) (show_number-IsDigit n))
]

parse_port-or_blank : (n : ℕ) → parse_port (or_blank (number n)) ≡ n
unfolding parse_port or_blank
parse_port-or_blank n = elim (Bool-cases (eqb n 0)) [
  | inl none_shown ↦ rw none_shown (unfold parse_int in ground arith)
  | inr shown ↦ rw shown (ap (λ o. elim o [ none ↦ 0 | some k ↦ k ]) (parse_int-show_number n))
]

-- Typing the text that the input already shows leaves a rule with numeric ports as it is.
pub type_ports-port_text :
    (r : Rule) (from to : ℕ)
    → r.from_port ≡ number from
    → r.to_port ≡ number to
    → type_ports (port_text r) r ≡ r
unfolding type_ports port_text ports_of join
type_ports-port_text r from to f t = elim (Bool-cases (eqb from to)) [
  | inl same ↦
      let both : from ≡ to = ground arith in
      rw (f, t, same, includes-whole b'-' (or_blank (number from)) (or_blank-IsWhole from))
        (ap (λ n. record r { from_port = number n; to_port = number n }) (parse_port-or_blank from)
          ∙ ap (λ n. record r { from_port = number from; to_port = number n }) both)
  | inr differ ↦
      let shown = or_blank (number to) in
      rw (f, t, differ, includes-part b'-' (or_blank (number from)) shown)
        (ap (λ parts. ports_of parts (record r { from_port = number from; to_port = number to }))
            (split-join b'-' (or_blank (number from)) (shown ∷ [])
              (or_blank-IsWhole from, (or_blank-IsWhole to, tt)))
          ∙ ap (λ n. record r { from_port = number n; to_port = number (parse_port shown) })
              (parse_port-or_blank from)
          ∙ ap (λ n. record r { from_port = number from; to_port = number n })
              (parse_port-or_blank to))
]
