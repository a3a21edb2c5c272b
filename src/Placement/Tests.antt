-- ===== src/Placement/Tests.antt =====
-- Placement beside one server that runs.
use tunploy.Common.{true, [], ◌∷◌, select, eq_text}
use tunploy.Common.Text.{trim_space}
use tunploy.Wg.Model.{default_listen_port}
use tunploy.Wg.Samples.{office}
use tunploy.Store.Tables.{Db}
use tunploy.Store.Peers.{peer_count}
use tunploy.Store.Servers.{all_instances}
use tunploy.Placement.{next_free_port, ports_on, is_wanted, pick}
use tunploy.Placement.Ports.{IsNextPort, next_free_port-IsNextPort}
use tunploy.Placement.Choice.{Picks, pick-Picks}

next_free_port-IsNextPort_example :
    IsNextPort (ports_on (office ∷ []) 0) default_listen_port (next_free_port (office ∷ []) 0)
next_free_port-IsNextPort_example = next_free_port-IsNextPort (office ∷ []) 0

abbrev one_server : Db
one_server = record {
  instances = office ∷ [];
  rows = [];
  counters = [];
  usage = [];
  next_instance = 2;
  next_peer = 1;
}

pick-Picks_example :
    Picks
      (λ id. true)
      (peer_count one_server)
      (select (is_wanted eq_text (trim_space []) (trim_space []) 0) (all_instances one_server))
      (pick eq_text (λ t. t) (λ id. true) one_server [] [] 0)
pick-Picks_example = pick-Picks eq_text (λ t. t) (λ id. true) one_server [] [] 0
