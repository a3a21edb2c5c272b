-- ===== src/Wg/Config/KillSwitch.antt =====
-- Where the kill switch puts its firewall rules.
use tunploy.Common.{ℕ, ◌≡◌, ◌≢◌, [], ◌∷◌}
use tunploy.Common.Text.{Text, codes}

abbrev head_or : Text → ℕ → ℕ
head_or [] d = d
head_or (c ∷ s) d = c

-- No line of the text starts with a bracket, but for its first line.
abbrev HasNoSection : Text → Type 0
HasNoSection [] = Unit {0}
HasNoSection (c ∷ s) = (c ≡ 10 → head_or s 0 ≢ b'[') × HasNoSection s

abbrev section_start : Text
section_start = codes "\n[Peer]"

-- Whole lines of settings.
record IsBody (t : Text) : Type 0 where
  sections : HasNoSection t
  start : head_or t 0 ≢ b'['
