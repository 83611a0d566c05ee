-- ===== src/Audit/Tests.antt =====
-- A search on the second page, with its two answers in either order. The total stands for the rows:
-- the server of the tests answers with the offset.
use wolkvorm.Base.{[], ◌∷◌, ◌≡◌, refl}
use wolkvorm.Audit.{Query, Audit, open_audit, handle_search, query, fetch_logs, render, receive}
use wolkvorm.Audit.InOrder.{Shown, shown, current, start, answer, Reach-settled}

abbrev serve : Query → Shown
serve q = ([], q.offset)

abbrev second_page : Audit
second_page = record {
  entries = [];
  total = 30;
  page = 1;
  action_filter = [];
  entity_filter = [];
  search = [];
  pending = [];
}

abbrev searched : Audit
searched = handle_search second_page

two_requests : searched.pending ≡ query second_page ∷ query (record second_page { page = 0 }) ∷ []
unfolding handle_search fetch_logs render query
two_requests = refl

-- If the request for the first page is answered before the other one, the first page ends with the
-- rows of the second.
abbrev late : Audit
late =
    receive (serve (query second_page))
      (receive (serve (query (record second_page { page = 0 }))) searched)

late_rows : (late.page ≡ 0) × (late.total ≡ 30)
unfolding handle_search fetch_logs render query receive
late_rows = (refl, refl)

abbrev settled : Audit
settled = receive (serve (query open_audit)) (record open_audit { pending = [] })

Reach-settled_example : shown settled ≡ serve (current [] settled)
unfolding open_audit fetch_logs receive query
Reach-settled_example =
    Reach-settled serve settled [] (answer (query open_audit) [] start refl) refl
