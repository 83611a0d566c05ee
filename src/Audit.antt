-- ===== src/Audit.antt =====
-- frontend/src/pages/AuditLogPage.js: the audit log, one page at a time, with its filters, its search
-- and the requests that are under way. React runs the effect that asks for the entries after the
-- first rendering, and after one in which the page or a filter has changed.
pub mod InOrder
mod Tests
use wolkvorm.Base.{
  ℕ, ◌+◌, ◌-◌, ◌*◌, ◌/◌, max, min, List, [], ◌∷◌, ◌++◌, Bool, true, false, not, ◌&&◌, ◌||◌, ◌==◌,
  text_eq, if◌then◌else◌, eqb, leb, ltb, Text,
}

pub record Entry : Type 0 where
  pub created_at : Text
  pub action : Text
  pub entity_type : Text
  pub entity_id : Text
  pub details : Text
  pub user_identity : Text
  pub ip_address : Text

-- The parameters of a request; an empty text is one that is not sent.
pub record Query : Type 0 where
  pub limit : ℕ
  pub offset : ℕ
  pub action : Text
  pub entity_type : Text
  pub search : Text

-- The state of the page, and the requests that have no answer yet, the oldest first.
pub record Audit : Type 0 where
  pub entries : List Entry
  pub total : ℕ
  pub page : ℕ
  pub action_filter : Text
  pub entity_filter : Text
  pub search : Text
  pub pending : List Query

abbrev pub limit : ℕ
limit = 30

unfoldable pub query : Audit → Query
query a = record {
  limit = limit;
  offset = a.page * limit;
  action = a.action_filter;
  entity_type = a.entity_filter;
  search = a.search;
}

-- `fetchLogs()` of the rendering `seen`, up to its request.
unfoldable pub fetch_logs : Audit → Audit → Audit
unfolding query
fetch_logs seen a = record a { pending = a.pending ++ query seen ∷ [] }

abbrev same_deps : Audit → Audit → Bool
same_deps a b =
    eqb a.page b.page && a.action_filter == b.action_filter && a.entity_filter == b.entity_filter

-- The rendering of `b` after `a`, with the effect.
unfoldable pub render : Audit → Audit → Audit
unfolding fetch_logs
render a b = if same_deps a b then b else fetch_logs b b

abbrev blank : Audit
blank = record {
  entries = [];
  total = 0;
  page = 0;
  action_filter = [];
  entity_filter = [];
  search = [];
  pending = [];
}

unfoldable pub open_audit : Audit
unfolding fetch_logs
open_audit = fetch_logs blank blank

-- The handlers of the filters, of the search and of the buttons; the buttons are enabled as below.
unfoldable pub set_action_filter : Text → Audit → Audit
unfolding render
set_action_filter v a = render a (record a { action_filter = v; page = 0 })

unfoldable pub set_entity_filter : Text → Audit → Audit
unfolding render
set_entity_filter v a = render a (record a { entity_filter = v; page = 0 })

unfoldable pub set_search : Text → Audit → Audit
unfolding render
set_search v a = render a (record a { search = v })

-- The request that `handleSearch` makes itself is of the rendering that is on the screen.
unfoldable pub handle_search : Audit → Audit
unfolding render fetch_logs
handle_search a = render a (fetch_logs a (record a { page = 0 }))

-- `Math.ceil(total / limit)`
unfoldable pub total_pages : Audit → ℕ
total_pages a = (a.total + 29) / limit

unfoldable pub previous : Audit → Audit
unfolding render
previous a = render a (record a { page = max 0 (a.page - 1) })

unfoldable pub previous_disabled : Audit → Bool
previous_disabled a = eqb a.page 0

unfoldable pub next : Audit → Audit
unfolding render total_pages
next a = render a (record a { page = min (total_pages a - 1) (a.page + 1) })

unfoldable pub next_disabled : Audit → Bool
unfolding total_pages
next_disabled a = leb (total_pages a - 1) a.page

unfoldable pub shows_pagination : Audit → Bool
unfolding total_pages
shows_pagination a = ltb 1 (total_pages a)

-- An answer: the entries and how many there are in all. A failure changes nothing.
unfoldable pub receive : List Entry × ℕ → Audit → Audit
receive (entries, total) a = record a { entries = entries; total = total }
