-- ===== src/Wg/Samples.antt =====
-- A server and a device for the tests.
use tunploy.Common.{ℕ, true, false, none, [], ◌∷◌, replicate}
use tunploy.Common.Text.{codes}
use tunploy.Common.Int.{pos}
use tunploy.Wg.Net.{ip4, prefix_from}
use tunploy.Wg.Model.{Instance, Peer, Key, monthly}

abbrev pub a_key : ℕ → Key
a_key n = replicate 32 n

-- 10.8.0.1/24
abbrev pub office : Instance
office = record {
  id = 1;
  node_id = 0;
  name = codes "office";
  address = prefix_from (ip4 0x0a080001) 24;
  listen_port = pos 51820;
  private_key = a_key 7;
  public_key = a_key 8;
  endpoint = codes "vpn.example.com";
  dns = ip4 0x01010101 ∷ [];
  dns_on_server = false;
  mtu = pos 0;
  persistent_keepalive = pos 25;
  client_allowed_ips = prefix_from (ip4 0) 0 ∷ [];
  country = [];
  city = [];
  created_at = 0;
  updated_at = 0;
}

-- 10.8.0.2, with a limit of 100 bytes
abbrev pub phone : Peer
phone = record {
  id = 1;
  instance_id = 1;
  name = codes "phone";
  address = ip4 0x0a080002;
  private_key = a_key 1;
  public_key = a_key 2;
  preshared_key = a_key 3;
  enabled = true;
  external_id = [];
  metadata = [];
  data_limit = pos 100;
  limit_period = monthly;
  usage_reset_at = none;
  expires_at = none;
  speed_limit = pos 0;
  share_token = [];
  share_expires_at = none;
  last_handshake = none;
  created_at = 0;
  updated_at = 0;
}
