-- ===== src/Rules/Tests.antt =====
-- The editor with one rule.
use wolkvorm.Base.{List, [], ◌∷◌, All, codes, ◌≡◌, refl}
use wolkvorm.Rules.{
  Rule, number, port_text, leave_cidr, Event, added, type_chosen, ports_typed, run,
}
use wolkvorm.Text.{trim, includes}
use wolkvorm.Text.Number.{show_number}
use wolkvorm.Rules.Presets.{IsPreset, run-IsPreset}

abbrev web : Rule
web = record {
  type = "Custom TCP";
  protocol = "tcp";
  from_port = number 8000;
  to_port = number 8080;
  cidr = codes "10.1.2.3";
  description = [];
}

web_ports : port_text web ≡ codes "8000-8080"
unfolding port_text show_number
web_ports = refl

web_left : (leave_cidr web).cidr ≡ codes "10.1.2.3/32"
unfolding leave_cidr trim includes
web_left = refl

abbrev edits : List Event
edits = added ∷ ports_typed 0 (codes "80") ∷ type_chosen 0 "HTTPS" ∷ []

run-IsPreset_example : All IsPreset (run [] edits)
run-IsPreset_example = run-IsPreset edits [] tt
