-- ===== src/Servers/Settings.antt =====
-- internal/instance/settings.go: what new servers start from, kept in the store's settings.
use tunploy.Common.{
  ℕ, true, not, ◌&&◌, Option, none, some, List, [], ◌∷◌, ◌++◌, ltb, if◌then◌else◌, length, is_empty,
  select,
}
use tunploy.Common.Text.{Text, codes, trim_space, split_on}
use tunploy.Apperr.{Result, ok, err, failure, plain, Fields, flag, fields_error}
use tunploy.Wg.Net.{Addr}
use tunploy.Wg.Net.Show.{addr_text}
use tunploy.Wg.Model.{default_dns}
use tunploy.Wg.Validate.{valid_host}
use tunploy.Event.{Event}
use tunploy.Store.Nodes.{Settings, setting_of, save_settings}
use tunploy.Servers.{Outside, Defaults, parse_each, is_ip}

abbrev pub public_host_key : Text
public_host_key = codes "public_host"

abbrev pub default_dns_key : Text
default_dns_key = codes "default_dns"

abbrev max_dns_servers : ℕ
max_dns_servers = 8

-- SettingsChange
pub record SettingsChange : Type 0 where
  pub public_host : Option Text
  pub default_dns : Option (List Text)

-- splitList: the parts between commas that are not empty.
abbrev pub split_list : Text → List Text
split_list raw = select (λ part. not (is_empty part)) (split_on b',' raw)

-- joinAddrs
abbrev pub join_addrs : List Addr → Text
join_addrs [] = []
join_addrs (a ∷ []) = addr_text a
join_addrs (a ∷ b ∷ rest) = addr_text a ++ (b',' ∷ join_addrs (b ∷ rest))

module _ (out : Outside) where
  abbrev stored_dns : Option Text → Result (List Addr)
  stored_dns none = ok default_dns
  stored_dns (some raw) = elim (parse_each out.parse_addr (split_list raw)) [
    | none ↦ err failure
    | some dns ↦ ok dns
  ]

  abbrev or_empty : Option Text → Text
  or_empty none = []
  or_empty (some t) = t

  -- Service.Settings
  unfoldable pub settings : Settings → Result Defaults
  settings t = elim (stored_dns (setting_of t default_dns_key)) [
    | err e ↦ err e
    | ok dns ↦ ok (record { host = or_empty (setting_of t public_host_key); dns = dns })
  ]

  -- Service.PublicHost
  public_host : Settings → Result Text
  public_host t = elim (settings t) [
    | err e ↦ err e
    | ok d ↦ ok (if is_empty d.host then out.public_host else d.host)
  ]

  abbrev host_fields : Option Text → Fields → Fields
  host_fields none fs = fs
  host_fields (some host) fs =
      flag (not (is_empty (trim_space host)) && not (valid_host (is_ip out) (trim_space host)))
        "public_host" (plain "public host must be a hostname or IP address, without a port") fs

  abbrev dns_fields : Option (List Text) → Fields → Fields
  dns_fields none fs = fs
  dns_fields (some texts) fs = elim (parse_each out.parse_addr texts) [
    | none ↦ flag true "default_dns" (plain "dns must be a list of IP addresses") fs
    | some dns ↦
        flag (ltb max_dns_servers (length dns)) "default_dns"
          (plain "at most 8 dns servers are allowed") fs
  ]

  abbrev pub dns_values : Option (List Text) → Settings
  dns_values none = []
  dns_values (some texts) = elim (parse_each out.parse_addr texts) [
    | none ↦ (default_dns_key, []) ∷ []
    | some dns ↦ (default_dns_key, join_addrs dns) ∷ []
  ]

  abbrev host_values : Option Text → Settings → Settings
  host_values none values = values
  host_values (some host) values = (public_host_key, trim_space host) ∷ values

  abbrev pub settings_updated : Event
  settings_updated = record {
    kind = codes "settings.updated";
    instance_id = 0;
    instance_name = [];
    peer_id = 0;
    peer_name = [];
    node_name = [];
    ip = [];
    detail = [];
  }

  -- Service.UpdateSettings: the answer, the settings of the store and the events.
  unfoldable pub update_settings :
      SettingsChange → Settings × List Event → Result Defaults × (Settings × List Event)
  update_settings c (t, events) =
      elim (fields_error (dns_fields c.default_dns (host_fields c.public_host []))) [
        | err e ↦ (err e, (t, events))
        | ok u ↦
            let t' = save_settings t (host_values c.public_host (dns_values c.default_dns)) in
            (settings t', (t', events ++ settings_updated ∷ []))
      ]
