-- ===== src/Servers/Saved.antt =====
-- internal/instance/settings.go: the settings and their text in the store.
use tunploy.Common.{◌≡◌, ◌≢◌, false, Option, some, List, [], ◌∷◌, ◌++◌, is_empty, All}
use tunploy.Common.Text.{Text, trim_space}
use tunploy.Wg.Net.{Addr}
use tunploy.Wg.Net.Show.{addr_text}
use tunploy.Store.Nodes.{Settings, save_setting}
use tunploy.Apperr.{Result}
use tunploy.Event.{Event}
use tunploy.Servers.{Outside, Defaults}
use tunploy.Servers.Settings.{join_addrs, settings_updated, public_host_key, default_dns_key}

-- A text without a comma.
abbrev NoComma : Text → Type 0
NoComma = All (λ c. c ≢ 44)

abbrev Full : List Addr → Type 0
Full = All (λ a. is_empty (addr_text a) ≡ false)

-- Addresses that the parser reads back from their print.
abbrev pub ReadsBack : (Text → Option Addr) → List Addr → Type 0
ReadsBack parse = All (λ a. parse (trim_space (addr_text a)) ≡ some a)

-- The settings after an update.
abbrev saved : Text → List Addr → Settings → Settings
saved host dns t =
    save_setting default_dns_key (join_addrs dns) (save_setting public_host_key host t)

abbrev answered :
    Outside → List Event → Result Defaults → Settings → Result Defaults × (Settings × List Event)
answered out events r t = (r, (t, events ++ settings_updated out ∷ []))
