-- ===== src/Base/Newest.antt =====
-- Requests whose answers come in their order: `pending` are those under way, the oldest first, and the
-- screen shows the answer to the last request that was answered.
use mathlib.Core.Path.{◌≡◌, refl}
use mathlib.Core.List.{List, [], ◌∷◌, ◌++◌}

module _ {ℓ κ} {Q : Type ℓ} {S : Type κ} (serve : Q → S) where
  -- The newest request, or the one whose answer is shown if none is under way, meets `P`.
  abbrev pub IsNewest : (Q → Type (ℓ ⊔ κ)) → (pending : List Q) → (shown : S) → Type (ℓ ⊔ κ)
  IsNewest P [] s = (q : Q) × P q × (s ≡ serve q)
  IsNewest P (q ∷ []) s = P q
  IsNewest P (q ∷ r ∷ qs) s = IsNewest P (r ∷ qs) s

  module _ (P : Q → Type (ℓ ⊔ κ)) where
    pub IsNewest-append : (qs : List Q) (q : Q) (s : S) → P q → IsNewest P (qs ++ q ∷ []) s
    IsNewest-append [] q s h = h
    IsNewest-append (r ∷ []) q s h = h
    IsNewest-append (r ∷ r' ∷ qs) q s h = IsNewest-append (r' ∷ qs) q s h

    pub IsNewest-imp :
        (P' : Q → Type (ℓ ⊔ κ)) (qs : List Q) (s : S)
        → ((q : Q) → P q → P' q)
        → IsNewest P qs s
        → IsNewest P' qs s
    IsNewest-imp P' [] s f (q, h, e) = (q, f q h, e)
    IsNewest-imp P' (r ∷ []) s f h = f r h
    IsNewest-imp P' (r ∷ r' ∷ qs) s f h = IsNewest-imp P' (r' ∷ qs) s f h

    -- While a request is under way, it makes no difference what is shown.
    pub IsNewest-shown :
        (q : Q) (qs : List Q) (s t : S) → IsNewest P (q ∷ qs) s → IsNewest P (q ∷ qs) t
    IsNewest-shown q [] s t h = h
    IsNewest-shown q (r ∷ qs) s t h = IsNewest-shown r qs s t h

    -- The oldest request is answered.
    pub IsNewest-answer :
        (q : Q) (qs : List Q) (s : S) → IsNewest P (q ∷ qs) s → IsNewest P qs (serve q)
    IsNewest-answer q [] s h = (q, h, refl)
    IsNewest-answer q (r ∷ qs) s h = IsNewest-shown r qs s (serve q) h
