-- ===== src/Theme.antt =====
-- frontend/src/contexts/ThemeContext.js: the mode of the colors, with its entry in `localStorage`, and
-- the colors of frontend/src/styles/theme.js.
-- `none` stands for a missing entry and for a storage that cannot be read.
mod Tests
use wolkvorm.Base.{
  Option, none, some, Bool, ◌==◌, text_eq, if◌then◌else◌, Bool-cases, ℕ, [], ◌∷◌, Text, codes, ◌≡◌,
  refl, sym, ap, ◌∙◌, inl, inr, List, true,
}

abbrev or_dark : Text → Text
or_dark [] = codes "dark"
or_dark (c ∷ t) = c ∷ t

unfoldable pub open_mode : Option Text → Text
open_mode none = codes "dark"
open_mode (some stored) = or_dark stored

unfoldable pub is_dark : Text → Bool
is_dark mode = mode == codes "dark"

unfoldable pub toggle_theme : Text → Text
toggle_theme mode = if mode == codes "dark" then codes "light" else codes "dark"

-- The effect stores the mode. After a toggle the next visit opens in the mode that was left.
pub open_mode-toggle_theme :
    (mode : Text) → open_mode (some (toggle_theme mode)) ≡ toggle_theme mode
unfolding open_mode toggle_theme
open_mode-toggle_theme mode = elim (Bool-cases (mode == codes "dark")) [
  | inl dark ↦ rw dark refl
  | inr light ↦ rw light refl
]

-- frontend/src/styles/theme.js.
pub record Colors : Type 0 where
  pub bg : Text
  pub card : Text
  pub card_hover : Text
  pub primary : Text
  pub primary_hover : Text
  pub success : Text
  pub danger : Text
  pub warning : Text
  pub text : Text
  pub text_muted : Text
  pub border : Text
  pub terminal : Text
  pub terminal_text : Text
  pub input : Text
  pub input_border : Text

record Fonts : Type 0 where
  body : Text
  mono : Text

record Radius : Type 0 where
  sm : ℕ
  md : ℕ
  lg : ℕ

pub record Theme : Type 0 where
  pub colors : Colors
  fonts : Fonts
  radius : Radius

abbrev dark_theme : Theme
dark_theme = record {
  colors = record {
    bg = codes "#0f172a";
    card = codes "#1e293b";
    card_hover = codes "#334155";
    primary = codes "#6366f1";
    primary_hover = codes "#818cf8";
    success = codes "#22c55e";
    danger = codes "#ef4444";
    warning = codes "#f59e0b";
    text = codes "#f8fafc";
    text_muted = codes "#94a3b8";
    border = codes "#334155";
    terminal = codes "#020617";
    terminal_text = codes "#22c55e";
    input = codes "#0f172a";
    input_border = codes "#475569";
  };
  fonts = record {
    body = codes "'Inter', -apple-system, BlinkMacSystemFont, 'Segoe UI', sans-serif";
    mono = codes "'JetBrains Mono', 'Fira Code', 'Cascadia Code', monospace";
  };
  radius = record { sm = 6; md = 10; lg = 16 };
}

abbrev light_theme : Theme
light_theme = record {
  colors = record {
    bg = codes "#f1f5f9";
    card = codes "#ffffff";
    card_hover = codes "#f8fafc";
    primary = codes "#6366f1";
    primary_hover = codes "#4f46e5";
    success = codes "#16a34a";
    danger = codes "#dc2626";
    warning = codes "#d97706";
    text = codes "#0f172a";
    text_muted = codes "#64748b";
    border = codes "#e2e8f0";
    terminal = codes "#f8fafc";
    terminal_text = codes "#16a34a";
    input = codes "#ffffff";
    input_border = codes "#cbd5e1";
  };
  fonts = dark_theme.fonts;
  radius = dark_theme.radius;
}

unfoldable pub theme_of : Text → Theme
theme_of mode = if mode == codes "dark" then dark_theme else light_theme

-- What the effect sets in the style of the page's body.
pub record Body : Type 0 where
  pub background : Text
  pub color : Text

unfoldable pub body_of : Theme → Body
body_of t = record { background = t.colors.bg; color = t.colors.text }

-- The provider, with the entry in `localStorage` and what the effect sets on the page.
pub record Provider : Type 0 where
  pub mode : Text
  pub stored : Option Text
  pub body : Body
  pub data_theme : Text

-- The effect; `writable` says whether `setItem` returns or throws.
unfoldable pub apply_mode : (writable : Bool) → Provider → Provider
unfolding body_of theme_of
apply_mode writable p = record p {
  stored = if writable then some p.mode else p.stored;
  body = body_of (theme_of p.mode);
  data_theme = p.mode;
}

-- A visit, with the page as it was.
unfoldable pub open_provider : (writable : Bool) → Option Text → Body → Provider
unfolding apply_mode open_mode
open_provider writable stored body =
    apply_mode writable
      (record { mode = open_mode stored; stored = stored; body = body; data_theme = [] })

unfoldable pub toggle_mode : (writable : Bool) → Provider → Provider
unfolding apply_mode toggle_theme
toggle_mode writable p = apply_mode writable (record p { mode = toggle_theme p.mode })

pub data Event : Type 0 where
  toggled reloaded : Event

unfoldable pub run : List Event → Provider → Provider
unfolding toggle_mode open_provider
run [] p = p
run (toggled ∷ es) p = run es (toggle_mode true p)
run (reloaded ∷ es) p = run es (open_provider true p.stored p.body)

-- The mode is what is stored, what the page is marked with and what its colors are of.
record IsShown (p : Provider) : Type 0 where
  stored : p.stored ≡ some p.mode
  marked : p.data_theme ≡ p.mode
  colored : p.body ≡ body_of (theme_of p.mode)
  kept : open_mode p.stored ≡ p.mode

or_dark-or_dark : (t : Text) → or_dark (or_dark t) ≡ or_dark t
or_dark-or_dark [] = refl
or_dark-or_dark (c ∷ t) = refl

open_mode-open_mode :
    (stored : Option Text) → open_mode (some (open_mode stored)) ≡ open_mode stored
unfolding open_mode
open_mode-open_mode none = refl
open_mode-open_mode (some t) = or_dark-or_dark t

open_provider-IsShown :
    (stored : Option Text) (body : Body) → IsShown (open_provider true stored body)
unfolding open_provider apply_mode
open_provider-IsShown stored body = record {
  stored = refl;
  marked = refl;
  colored = refl;
  kept = open_mode-open_mode stored;
}

run-IsShown : (es : List Event) (p : Provider) → IsShown p → IsShown (run es p)
unfolding run
run-IsShown [] p h = h
run-IsShown (toggled ∷ es) p h = run-IsShown es (toggle_mode true p) (
    unfold toggle_mode in
    record { stored = refl; marked = refl; colored = refl; kept = open_mode-toggle_theme p.mode })
run-IsShown (reloaded ∷ es) p h =
    run-IsShown es (open_provider true p.stored p.body) (open_provider-IsShown p.stored p.body)

-- While `localStorage` can be read and written: after any toggles and reloads, from whatever entry there
-- was at first, a reload shows the mode and the colors of the body that are on the screen, and marks
-- the page with the same theme.
pub run-reloaded :
    (stored : Option Text) (body : Body) (es : List Event)
    → let p = run es (open_provider true stored body) in
      let q = open_provider true p.stored p.body in
      (q.mode ≡ p.mode) × (q.body ≡ p.body) × (q.data_theme ≡ p.data_theme)
unfolding open_provider apply_mode
run-reloaded stored body es =
    let h = run-IsShown es (open_provider true stored body) (open_provider-IsShown stored body) in
    (h.kept, ap (λ m. body_of (theme_of m)) h.kept ∙ sym h.colored, h.kept ∙ sym h.marked)
