-- ===== src/Setup/Tests.antt =====
-- A form that can be sent, and the strength of passwords.
use wolkvorm.Base.{codes, ◌≡◌, refl}
use wolkvorm.Text.Regex.{is_digit}
use wolkvorm.Setup.{Setup, open_setup, get_password_strength, very_strong}

abbrev typed : Setup
typed = record open_setup { password = codes "secret1"; confirm_password = codes "secret1" }

shown : get_password_strength (codes "Secret-123") ≡ very_strong
unfolding get_password_strength is_digit
shown = refl
