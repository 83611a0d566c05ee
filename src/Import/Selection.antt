-- ===== src/Import/Selection.antt =====
-- What is selected.
use Prim.Native.String.{String}
use mathlib.Core.List.Memᴰ
use wolkvorm.Base.{
  ℕ, List, [], ◌∷◌, true, string_eq, Bool-cases, eqb, length, Memᴰ, Memᴰ-cons, ◌≡◌, ◌≢◌, refl, sym,
  ap, ◌∙◌, ◌⊎◌, inl, inr, arith,
}
use wolkvorm.Base.Sets.{has, add, add_all, has-add}
use wolkvorm.Import.{
  Resource, Import, open_import, found, failed, imported, start_scan, end_scan, toggle_select, ids,
  select_all, start_import, end_import, import_more, Event, type_clicked, region_chosen,
  scan_clicked, scan_ended, toggled, all_clicked, back_clicked, configure_clicked, env_typed,
  import_clicked, import_ended, more_clicked, happen, run,
}

-- In the step that configures the import something is selected.
abbrev pub IsChosen : Import → Type 0
IsChosen s = s.step ≡ 3 → (length s.selected ≡ 0) → ⊥

happen-IsChosen : (s : Import) (e : Event) → IsChosen s → IsChosen (happen s e)
unfolding happen start_scan end_scan toggle_select select_all start_import end_import import_more
happen-IsChosen s (type_clicked t) h = ground arith
happen-IsChosen s (region_chosen r) h = ground arith
happen-IsChosen s scan_clicked h = ground arith
happen-IsChosen s (scan_ended (found rs total managed)) h = ground arith
happen-IsChosen s (scan_ended failed) h = ground arith
happen-IsChosen s (toggled id) h = ground arith
happen-IsChosen s all_clicked h = ground arith
happen-IsChosen s back_clicked h = ground arith
happen-IsChosen s configure_clicked h = ground arith
happen-IsChosen s (env_typed t) h = ground arith
happen-IsChosen s import_clicked h = ground arith
happen-IsChosen s (import_ended (imported n total)) h = ground arith
happen-IsChosen s (import_ended failed) h = ground arith
happen-IsChosen s more_clicked h = ground arith

keeps_IsChosen : (es : List Event) (s : Import) → IsChosen s → IsChosen (run s es)
unfolding run
keeps_IsChosen [] s h = h
keeps_IsChosen (e ∷ es) s h = keeps_IsChosen es (happen s e) (happen-IsChosen s e h)

-- Whatever happens on the page, and whenever answers come, the step that configures the import is
-- only shown while something is selected.
pub run-IsChosen : (es : List Event) → IsChosen (run open_import es)
unfolding open_import
run-IsChosen es = keeps_IsChosen es open_import (ground arith)

has-add_all_id :
    (x : String) (s : List String) (rs : List Resource)
    → (has x s ≡ true) ⊎ ((r : Resource) × Memᴰ r rs × (r.id ≡ x))
    → has x (add_all s (ids rs)) ≡ true
unfolding add_all
has-add_all_id x s [] (inl h) = h
has-add_all_id x s [] (inr (r, m, e)) = absurd (Memᴰ.not-nil m)
has-add_all_id x s (q ∷ rs) (inl h) =
    has-add_all_id x (add q.id s) rs (inl ((has-add x q.id s).1 (inl h)))
has-add_all_id x s (q ∷ rs) (inr (r, m, e)) = elim ((Memᴰ-cons r q rs).0 m) [
  | inl same ↦
      has-add_all_id x (add q.id s) rs
        (inl ((has-add x q.id s).1 (inr (sym e ∙ ap (λ (k : Resource). k.id) same))))
  | inr later ↦ has-add_all_id x (add q.id s) rs (inr (r, later, e))
]

-- Select All selects every discovered resource, unless as many ids are selected already as there are
-- resources.
pub select_all-selected :
    (s : Import) (r : Resource)
    → Memᴰ r s.resources
    → length s.selected ≢ length s.resources
    → has r.id (select_all s).selected ≡ true
unfolding select_all
select_all-selected s r m n = elim (Bool-cases (eqb (length s.selected) (length s.resources))) [
  | inl same ↦ absurd (n (ground arith))
  | inr other ↦ rw other (has-add_all_id r.id [] s.resources (inr (r, m, refl)))
]

-- After a scan that finds as many resources as ids were selected before it, Select All selects
-- nothing, although the ids may be those of an earlier scan.
pub select_all-end_scan :
    (s : Import) (rs : List Resource) (total managed : ℕ)
    → length s.selected ≡ length rs
    → (select_all (end_scan (found rs total managed) s)).selected ≡ []
unfolding select_all end_scan
select_all-end_scan s rs total managed h = ground (arith, h)
