-- ===== src/Resource/Dialog.antt =====
-- frontend/src/components/ConfirmModal.js, and the dialog that frontend/src/pages/ResourcePage.js asks
-- with before an apply or a destroy. An empty text stands for a missing one.
use wolkvorm.Base.{
  List, ◌∷◌, Option, none, some, Bool, true, false, ◌==◌, text_eq, if◌then◌else◌, Bool-cases, Text,
  codes, ◌≡◌, ◌⊎◌, refl, sym, ap, ◌∙◌, inl, inr,
}
use wolkvorm.Text.{is_nonempty}
use wolkvorm.Form.{Submission}
use wolkvorm.Resource.{Page, Event, confirmed, after, handle_confirm_action, launch_op, step}
use wolkvorm.Resource.Confirmed.{IsAwaited, after-IsAwaited}

-- The props of `ConfirmModal` but for its callbacks.
pub record Props : Type 0 where
  pub visible : Bool
  pub kind : Text
  pub title : Text
  pub message : Text
  pub confirm_text : Text
  pub cancel_text : Text

pub data Accent : Type 0 where
  danger warning plain : Accent

-- What the dialog shows.
pub record Dialog : Type 0 where
  pub accent : Accent
  pub title : Text
  pub message : Text
  pub cancel_label : Text
  pub confirm_label : Text

accent_of : Text → Accent
accent_of kind =
    if kind == codes "danger" then danger else if kind == codes "warning" then warning else plain

or_text : Text → Text → Text
or_text t other = if is_nonempty t then t else other

unfoldable pub confirm_modal : Props → Option Dialog
unfolding accent_of or_text
confirm_modal p =
    if p.visible
    then some (record {
      accent = accent_of p.kind;
      title = p.title;
      message = p.message;
      cancel_label = or_text p.cancel_text (codes "İptal");
      confirm_label = or_text p.confirm_text (codes "Onayla");
    })
    else none

-- `confirmAction?.action === "destroy"`
is_destroy : Option Submission → Bool
is_destroy none = false
is_destroy (some l) = l.action == codes "destroy"

is_asking : Option Submission → Bool
is_asking none = false
is_asking (some l) = true

props_of : Option Submission → Props
unfolding is_destroy is_asking
props_of o =
    let destroys = is_destroy o in
    record {
      visible = is_asking o;
      kind = if destroys then codes "danger" else codes "warning";
      title = if destroys then codes "Kaynağı Sil" else codes "Değişiklikleri Uygula";
      message =
          if destroys
          then codes
              "Bu işlem altyapı kaynaklarınızı kalıcı olarak SİLECEKTİR. Bu işlem geri alınamaz. Devam etmek istediğinize emin misiniz?"
          else codes
              "Bu işlem altyapınızda gerçek değişiklikler yapacaktır. Devam etmek istediğinize emin misiniz?";
      confirm_text = if destroys then codes "Evet, Sil" else codes "Evet, Uygula";
      cancel_text = codes "İptal";
    }

-- The dialog of the page.
unfoldable pub page_dialog : Page → Option Dialog
unfolding confirm_modal props_of
page_dialog p = confirm_modal (props_of p.confirm_action)

-- The dialog says of a launch what it does.
abbrev pub Announces : Dialog → Submission → Type 0
Announces d l =
    ((d.accent ≡ danger) × (l.action ≡ codes "destroy"))
    ⊎ ((d.accent ≡ warning) × (l.action ≡ codes "apply"))

abbrev accent_in : Option Dialog → Accent
accent_in none = plain
accent_in (some d) = d.accent

accent_lem :
    (l : Submission)
    → accent_of (props_of (some l)).kind ≡ (if l.action == codes "destroy" then danger else warning)
unfolding accent_of props_of
accent_lem l = elim (Bool-cases (l.action == codes "destroy")) [
  | inl same ↦ rw same refl
  | inr other ↦ rw other refl
]

modal-Announces :
    (past : List Event) (o : Option Submission) (d : Dialog)
    → IsAwaited past o
    → confirm_modal (props_of o) ≡ some d
    → (l : Submission) × (o ≡ some l) × Announces d l
unfolding confirm_modal props_of
modal-Announces past none d w h = cc
modal-Announces past (some l) d (m, which) h =
    let accent : accent_of (props_of (some l)).kind ≡ d.accent = ap accent_in h in
    let named = λ (a : Text). if a == codes "destroy" then danger else warning in
    (
      l,
      refl,
      elim which [
        | inl apply ↦ inr (sym accent ∙ accent_lem l ∙ ap named apply, apply)
        | inr destroy ↦ inl (sym accent ∙ accent_lem l ∙ ap named destroy, destroy)
      ],
    )

handle_confirm_action-some :
    (p : Page) (l : Submission)
    → p.confirm_action ≡ some l
    → ((handle_confirm_action p).started ≡ l ∷ p.started)
      × ((handle_confirm_action p).confirm_action ≡ none)
unfolding handle_confirm_action launch_op
handle_confirm_action-some p l e = rw e (refl, refl)

modal-none : confirm_modal (props_of none) ≡ none
unfolding confirm_modal props_of
modal-none = refl

-- Whatever has happened on the page: if the dialog is on the screen, a click on its confirmation starts
-- one operation, a destroy if the dialog has the color of danger and an apply if it has that of a
-- warning, which are its only colors, and the dialog is gone.
pub page_dialog-Announces :
    (past : List Event) (d : Dialog)
    → page_dialog (after past) ≡ some d
    → (l : Submission) × Announces d l
      × ((after (confirmed ∷ past)).started ≡ l ∷ (after past).started)
      × (page_dialog (after (confirmed ∷ past)) ≡ none)
unfolding page_dialog after step
page_dialog-Announces past d h =
    let (l, e, announced) =
      modal-Announces past (after past).confirm_action d (after-IsAwaited past) h in
    let (started, gone) = handle_confirm_action-some (after past) l e in
    (l, announced, started, ap (λ o. confirm_modal (props_of o)) gone ∙ modal-none)
