-- ===== src/Wg/Net/Show/Tests.antt =====
-- Addresses as netip prints them.
use tunploy.Common.{◌≡◌, refl}
use tunploy.Common.Text.{codes}
use tunploy.Common.Show.{in_base}
use tunploy.Wg.Net.{ip4, ip6}
use tunploy.Wg.Net.Show.{addr_text, ip4_text, ip6_text, longest_run, zero_run, join_groups}

show_tests :
    (addr_text (ip4 0x0a080001) ≡ codes "10.8.0.1")
    × (addr_text (ip6 0) ≡ codes "::")
    × (addr_text (ip6 0x20010db8000000000000000000000001) ≡ codes "2001:db8::1")
    × (addr_text (ip6 0x20010db8000000010000000000000001) ≡ codes "2001:db8:0:1::1")
    × (addr_text (ip6 0xffff01020304) ≡ codes "::ffff:1.2.3.4")
unfolding addr_text ip4_text ip6_text in_base longest_run zero_run join_groups
show_tests = (refl, refl, refl, refl, refl)
