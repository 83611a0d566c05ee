-- ===== src/Auth/Routes/Links.antt =====
-- The links of frontend/src/components/Navbar.js.
use Prim.Native.String.{String}
use wolkvorm.Base.{
  List, [], ◌∷◌, ◌++◌, true, false, string_eq, if◌then◌else◌, All, All-append, Bool-cases, ◌∙◌, ◌≡◌,
  inl, inr, refl, arith,
}
use wolkvorm.Auth.{Session, can_admin, can_operate}
use wolkvorm.Auth.Permissions.{can_granular}
use wolkvorm.Auth.Routes.{
  Page, dashboard, home, my_resources, settings, costs, audit, approvals, policies, graph,
  import_page, page, require_role, app_layout, is_path, app, IsSignedIn,
}

-- The paths that `navLinks` of the navigation bar lists.
pub nav_links : Session → List (List String)
nav_links s =
    []
    ∷ ("resources" ∷ [])
    ∷ ("my-resources" ∷ [])
    ∷ ("graph" ∷ [])
    ∷ ("costs" ∷ [])
    ∷ ((if can_operate s then ("import" ∷ []) ∷ [] else [])
        ++ (("approvals" ∷ [])
            ∷ ((if can_operate s then ("policies" ∷ []) ∷ [] else [])
                ++ (("audit" ∷ []) ∷ (if can_admin s then ("settings" ∷ []) ∷ [] else [])))))

abbrev pub IsReached : Session → List String → Type 0
IsReached s path = (p : Page) × (app s path ≡ page p)

app-signed_in :
    (s : Session) (path : List String)
    → IsSignedIn s
    → is_path "setup" path ≡ false
    → is_path "login" path ≡ false
    → app s path ≡ app_layout s path
unfolding app
app-signed_in s path h a b = ground arith

module _ (s : Session) (h : IsSignedIn s) where
  link :
      (path : List String) (p : Page)
      → is_path "setup" path ≡ false
      → is_path "login" path ≡ false
      → app_layout s path ≡ page p
      → IsReached s path
  link path p a b e = (p, app-signed_in s path h a b ∙ e)

  import-link : can_operate s ≡ true → IsReached s ("import" ∷ [])
  unfolding app_layout require_role is_path
  import-link can =
      let (_, _, _, _, same, _, _) = can_granular s in
      link ("import" ∷ []) import_page refl refl (rw (same ∙ can) refl)

  settings-link : can_admin s ≡ true → IsReached s ("settings" ∷ [])
  unfolding app_layout require_role is_path
  settings-link can = link ("settings" ∷ []) settings refl refl (rw can refl)

  approvals-links : All (IsReached s) (
      ("approvals" ∷ [])
      ∷ ((if can_operate s then ("policies" ∷ []) ∷ [] else [])
          ++ (("audit" ∷ []) ∷ (if can_admin s then ("settings" ∷ []) ∷ [] else []))))
  unfolding app_layout is_path
  approvals-links = (
    link ("approvals" ∷ []) approvals refl refl refl,
    All-append (IsReached s) (if can_operate s then ("policies" ∷ []) ∷ [] else [])
        (("audit" ∷ []) ∷ (if can_admin s then ("settings" ∷ []) ∷ [] else []))
        (elim (Bool-cases (can_operate s)) [
          | inl can ↦ rw can (link ("policies" ∷ []) policies refl refl refl, tt)
          | inr cannot ↦ rw cannot tt
        ])
        (
          link ("audit" ∷ []) audit refl refl refl,
          elim (Bool-cases (can_admin s)) [
            | inl can ↦ rw can (settings-link can, tt)
            | inr cannot ↦ rw cannot tt
          ],
        ),
  )

-- Every link that the navigation bar shows to a signed-in session leads to a page, and not to a
-- redirection.
pub nav_links-IsReached : (s : Session) → IsSignedIn s → All (IsReached s) (nav_links s)
unfolding nav_links app_layout is_path
nav_links-IsReached s h = (
  link s h [] dashboard refl refl refl,
  (
    link s h ("resources" ∷ []) home refl refl refl,
    (
      link s h ("my-resources" ∷ []) my_resources refl refl refl,
      (
        link s h ("graph" ∷ []) graph refl refl refl,
        (
          link s h ("costs" ∷ []) costs refl refl refl,
          All-append (IsReached s) (if can_operate s then ("import" ∷ []) ∷ [] else [])
              (("approvals" ∷ [])
                ∷ ((if can_operate s then ("policies" ∷ []) ∷ [] else [])
                    ++ (("audit" ∷ []) ∷ (if can_admin s then ("settings" ∷ []) ∷ [] else []))))
              (elim (Bool-cases (can_operate s)) [
                | inl can ↦ rw can (import-link s h can, tt)
                | inr cannot ↦ rw cannot tt
              ])
              (approvals-links s h),
        ),
      ),
    ),
  ),
)
