-- ===== src/Update/Tests.antt =====
-- The order of three versions.
use tunploy.Common.{◌≡◌, true, false, some}
use tunploy.Common.Text.{codes}
use tunploy.Update.Version.{Version, newer, parse_version}
use tunploy.Update.Version.Order.{newer-strict}

newer-strict_example :
    (newer (codes "v1.10.0") (codes "v1.10.0") ≡ false)
    × (newer (codes "v1.10.0") (codes "1.9.3") ≡ true
        → newer (codes "1.9.3") (codes "v1.10.0") ≡ false)
    × (newer (codes "v1.10.0") (codes "1.9.3") ≡ true
        → newer (codes "1.9.3") (codes "1.9.3-rc.1") ≡ true
        → newer (codes "v1.10.0") (codes "1.9.3-rc.1") ≡ true)
    × ((v w : Version)
        → parse_version (codes "v1.10.0") ≡ some v
        → parse_version (codes "1.9.3") ≡ some w
        → newer (codes "v1.10.0") (codes "1.9.3") ≡ false
        → newer (codes "1.9.3") (codes "v1.10.0") ≡ false
        → v ≡ w)
newer-strict_example = newer-strict (codes "v1.10.0") (codes "1.9.3") (codes "1.9.3-rc.1")
