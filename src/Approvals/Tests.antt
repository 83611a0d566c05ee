-- ===== src/Approvals/Tests.antt =====
-- The number beside "pending" counts what is listed, whatever its status.
use wolkvorm.Base.{[], ◌∷◌, some, get, put, codes, ◌≡◌, refl}
use wolkvorm.Approvals.{
  Approval, Approvals, open_approvals, fetch_approvals, set_status_filter, set_review_note, note_of,
  badge,
}

abbrev approved : Approval
approved = record {
  id = codes "1";
  status = codes "approved";
  action = codes "apply";
  resource_name = codes "logs";
  plan_output = [];
  reviewed_by = codes "ann";
  review_note = [];
  reviewed_at = [];
}

abbrev listed : Approvals
listed =
    fetch_approvals (some (some (approved ∷ [])))
      (set_status_filter (codes "approved") open_approvals)

pending_badge : badge (codes "pending") listed ≡ some 1
unfolding badge fetch_approvals set_status_filter open_approvals
pending_badge = refl

own_note : note_of (codes "1") (set_review_note (codes "1") (codes "ok") listed) ≡ codes "ok"
unfolding note_of set_review_note fetch_approvals set_status_filter open_approvals get put
own_note = refl
