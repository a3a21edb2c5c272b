-- ===== src/Servers/Tests.antt =====
-- The theorems about servers at a panel with one server.
use tunploy.Common.{true, false, none, some, [], if◌then◌else◌, eq_text}
use tunploy.Common.Text.{Text, codes}
use tunploy.Wg.Net.{ip4}
use tunploy.Store.Nodes.{Settings}
use tunploy.Servers.{Outside}
use tunploy.Wg.Samples.{office}
use tunploy.Deploy.Samples.{env, manager}
use tunploy.Deploy.Containers.{deploy_by_id, remove}
use tunploy.Servers.Commands.{provision, delete_server}
use tunploy.Servers.Creation.{Ends, Goes, provision-Ends, delete_server-Goes}

provision-Ends_example :
    Ends env office (deploy_by_id env 1 true manager).0 (provision env office manager)
provision-Ends_example = provision-Ends env office manager

delete_server-Goes_example :
    Goes office (remove env 1 manager).0 (remove env 1 manager).1 (delete_server env office manager)
delete_server-Goes_example = delete_server-Goes env office manager

-- Cloudflare's resolver is the only address that this parser knows.
abbrev outside : Outside
outside = record {
  parse_prefix = λ s. none;
  parse_addr = λ s. if eq_text s (codes "1.1.1.1") then some (ip4 0x01010101) else none;
  upper = λ s. s;
  public_of = λ k. k;
  random = λ seed. [];
  country_of = λ a. [];
  has_geo = false;
  lookup = λ s. none;
  public_host = codes "vpn.example.com";
}
