-- ===== src/Store/Tests.antt =====
-- The theorems about the store at a database with one server and one device.
use tunploy.Common.{ℕ, ◌≡◌, refl, ◌↔◌, true, false, none, some, List, [], ◌∷◌, arith, ◌==◌, All}
use tunploy.Common.Text.{codes}
use tunploy.Apperr.{err, missing, ok, idempotency_mismatch, idempotency_busy}
use tunploy.Store.ApiKeys.{Response, claim_idempotency_key, finish_idempotency_key, new_reply}
use tunploy.Store.ApiKeys.Replies.{Step, claim, steps, claim-once}
use tunploy.Store.Webhooks.{Webhook, wants}
use tunploy.Store.Webhooks.Subscriptions.{wants-is_among}
use tunploy.Store.Nodes.{Node, Nodes, node_of, node_by_id, delete_node}
use tunploy.Store.Nodes.Removal.{HasServer, delete_node-clears}
use tunploy.Common.Int.{pos}
use tunploy.Wg.Model.{Instance}
use tunploy.Wg.Net.{Addr}
use tunploy.Wg.Model.{Peer}
use tunploy.Wg.Limits.{active, status}
use tunploy.Wg.Stats.{PeerStats, Stats}
use tunploy.Wg.Samples.{office, phone, a_key}
use tunploy.Store.Users.{Users, new_user, claim_totp_step}
use tunploy.Store.Users.Steps.{claim_all, claim_totp_step-once}
use tunploy.Store.Sessions.{Session, user_by_session_token, delete_expired_sessions, delete_session}
use tunploy.Store.Sessions.Purge.{sessions-sign_in}
use tunploy.Store.Tables.{Counter, Db, row_by_id}
use tunploy.Store.Peers.{create_peer, created, new_row}
use tunploy.Store.Peers.Allocate.{IsHostAt}
use tunploy.Store.Peers.Invariant.{Inv}
use tunploy.Store.Peers.Created.{create_peer-succeeds}
use tunploy.Store.Histories.{create_server, create_device, run, empty_db, run_empty-Inv}
use tunploy.Store.Traffic.{
  counter_of, bytes, record_traffic, reset_peer_usage, reset_row, limit_usage, matches_status,
  seconds, sum_rx, sum_tx,
}
use tunploy.Store.Traffic.Recording.{Gains, reading_of}
use tunploy.Store.Traffic.Poll.{Grew, record_traffic_lem}
use tunploy.Store.Traffic.Limit.{reset_peer_usage_lem, after_reset}
use tunploy.Store.Traffic.Filter.{matches_status_iff, IsRecorded}

run_empty-Inv_example :
    Inv (run (λ t. false) empty_db ((5, create_server office) ∷ (6, create_device phone) ∷ []))
run_empty-Inv_example =
    run_empty-Inv (λ t. false) ((5, create_server office) ∷ (6, create_device phone) ∷ [])
      (omega arith, (tt, tt))

-- The phone has used 30 bytes up and 10 down on day 3.
abbrev one_device : Db
one_device = record {
  instances = office ∷ [];
  rows = new_row phone ∷ [];
  counters = record { peer_id = 1; rx = 30; tx = 10 } ∷ [];
  usage = record { peer_id = 1; day = 3; rx = 30; tx = 10 } ∷ [];
  next_instance = 2;
  next_peer = 2;
}

one_device-Inv : Inv one_device
one_device-Inv = record {
  placed = (
    record { address = (omega arith, omega arith, omega arith, omega arith); word = omega arith },
    tt,
  );
  apart = (tt, tt);
  fresh = (omega arith, tt);
  served = (
    record { server = office; known = refl; host = (omega arith, omega arith, (λ e. omega arith)) },
    tt,
  );
}

abbrev laptop : Peer
laptop = record phone { name = codes "laptop"; public_key = a_key 9 }

create_peer-succeeds_example :
    (a : Addr) × (db' : Db) × (create_peer one_device laptop 5
      ≡ ok (created one_device laptop a 5, db'))
    × IsHostAt office.address.addr office.address.bits a
    × (row_by_id db'.rows 2 ≡ some (new_row (created one_device laptop a 5)))
create_peer-succeeds_example =
    create_peer-succeeds one_device one_device-Inv laptop 5 office refl (omega arith) refl refl

abbrev reading : PeerStats
reading = record { endpoint = []; latest_handshake = none; rx = 50; tx = 15; online = true }

abbrev readings : Stats
readings = (a_key 2, reading) ∷ []

abbrev last_counter : Counter
last_counter = record { peer_id = 1; rx = 30; tx = 10 }

record_traffic_example :
    (gained : ℕ × ℕ) × Grew last_counter reading gained
    × Gains 1 3 gained one_device (record_traffic one_device 1 readings 4)
    × (counter_of (record_traffic one_device 1 readings 4) 1 ≡ some (reading_of 1 reading))
record_traffic_example =
    record_traffic_lem one_device readings (new_row phone) reading last_counter 1 3 4 (tt, tt) refl
      refl refl (omega arith) (omega arith)

abbrev later : Db
later = record one_device { usage = record { peer_id = 1; day = 3; rx = 50; tx = 15 } ∷ [] }

later-Gains : Gains 1 3 (20, 5) (after_reset one_device 1 7 3) later
unfolding sum_rx sum_tx
later-Gains = record { rx = refl; tx = refl }

reset_peer_usage_example :
    (reset_peer_usage one_device 1 7 3
      ≡ ok ((reset_row one_device.usage 7 3 (new_row phone)).peer, after_reset one_device 1 7 3))
    × ((after_reset one_device 1 7 3).usage ≡ one_device.usage)
    × (limit_usage later.usage (reset_row one_device.usage 7 3 (new_row phone)) 1 ≡ bytes 20 5)
reset_peer_usage_example =
    reset_peer_usage_lem one_device later (new_row phone) 7 3 1 20 5 refl
      ((λ e. (omega arith, λ d. refl)), tt) (omega arith) later-Gains (omega arith)

phone-IsRecorded : IsRecorded one_device.usage (new_row phone) 1
unfolding sum_rx sum_tx
phone-IsRecorded = record {
  expiry = tt;
  limit = omega arith;
  reset_rx = omega arith;
  reset_tx = omega arith;
  in_range = omega arith;
}

matches_status_iff_example :
    (matches_status one_device.usage (new_row phone) active 1 (seconds 9) ≡ true)
    ↔ (status phone (limit_usage one_device.usage (new_row phone) 1) 9 ≡ active)
matches_status_iff_example =
    matches_status_iff one_device.usage (new_row phone) active 1 9 phone-IsRecorded

abbrev one_user : Users
one_user = record {
  users = new_user 1 (codes "Ada") (codes "ada@example.com") [] 0 ∷ [];
  next_user = 2;
}

claim_totp_step-once_example :
    (claim_totp_step (claim_all (claim_totp_step one_user 1 8).1 ((1, 9) ∷ [])) 1 7).0 ≡ false
claim_totp_step-once_example = claim_totp_step-once one_user 1 8 7 ((1, 9) ∷ []) (omega arith)

abbrev two_sessions : List Session
two_sessions =
    record {
      token_hash = codes "a";
      user_id = 1;
      user_agent = [];
      created_at = 0;
      expires_at = 3_000_000_000;
    }
    ∷ record {
      token_hash = codes "b";
      user_id = 1;
      user_agent = [];
      created_at = 0;
      expires_at = 9_000_000_000;
    }
    ∷ []

sessions-sign_in_example :
    (user_by_session_token one_user
        (delete_expired_sessions two_sessions 4_000_000_000)
        (codes "b")
        5_000_000_000
      ≡ user_by_session_token one_user two_sessions (codes "b") 5_000_000_000)
    × (user_by_session_token one_user
          (delete_session two_sessions (codes "b"))
          (codes "b")
          5_000_000_000
        ≡ err missing)
    × (user_by_session_token one_user
          (delete_session two_sessions (codes "b"))
          (codes "a")
          5_000_000_000
        ≡ user_by_session_token one_user two_sessions (codes "a") 5_000_000_000)
sessions-sign_in_example =
    sessions-sign_in one_user two_sessions (codes "b") (codes "a") 4_000_000_000 5_000_000_000
      (omega arith) (λ e. ground arith)

abbrev created_reply : Response
created_reply = record { status = 201; content_type = codes "json"; body = codes "{}" }

-- Another request comes in between, and the same one while the first still runs.
abbrev between : List Step
between =
    claim 2 (codes "other") (codes "hash") 1_000_000_000_000
    ∷ claim 1 (codes "key") (codes "hash") 1_000_000_000_000
    ∷ []

claimed_once :
    claim_idempotency_key [] 1 (codes "key") (codes "hash") 1_000_000_000_000
    ≡ ok (none, new_reply 1 (codes "key") (codes "hash") 1_000_000_000_000 ∷ [])
unfolding claim_idempotency_key
claimed_once = refl

claim-once_example :
    let rs1 = steps between (new_reply 1 (codes "key") (codes "hash") 1_000_000_000_000 ∷ []) in
    let rs2 = steps [] (finish_idempotency_key rs1 1 (codes "key") created_reply) in
    (claim_idempotency_key rs1 1 (codes "key") (codes "hash") 1_060_000_000_000
      ≡ err idempotency_busy)
    × (claim_idempotency_key rs1 1 (codes "key") (codes "changed") 1_060_000_000_000
        ≡ err idempotency_mismatch)
    × (claim_idempotency_key rs2 1 (codes "key") (codes "hash") 50_000_000_000_000
        ≡ ok (some created_reply, rs2))
claim-once_example =
    claim-once [] (new_reply 1 (codes "key") (codes "hash") 1_000_000_000_000 ∷ []) 1 (codes "key")
      (codes "hash") (codes "changed") 1_000_000_000_000 between 1_060_000_000_000 created_reply []
      50_000_000_000_000 claimed_once (refl, (refl, tt)) (omega arith) (λ e. absurd (cc))
      (λ e. omega arith) tt (omega arith)

abbrev hook : Webhook
hook = record {
  id = 1;
  url = codes "https://example.com";
  secret = codes "secret";
  events = codes "device.created" ∷ codes "device.deleted" ∷ [];
  description = [];
  enabled = true;
  created_by = [];
  created_at = 0;
  updated_at = 0;
}

wants-is_among_example : wants hook (codes "device.deleted") ≡ true
wants-is_among_example = wants-is_among hook (codes "device.deleted") refl refl (refl, (refl, tt))

abbrev berlin : Node
berlin = record {
  id = 3;
  name = codes "berlin";
  host = codes "192.0.2.7";
  port = pos 22;
  username = codes "root";
  host_key = codes "key";
  last_seen_at = none;
  created_at = 0;
  updated_at = 0;
}

abbrev machines : Nodes
machines = record { nodes = berlin ∷ []; next_node = 4 }

delete_node-clears_example :
    (node_of machines.nodes 3 ≡ none → delete_node machines one_device 3 ≡ err missing)
    × ((n : Node)
        → node_of machines.nodes 3 ≡ some n
        → (t' : Nodes) × (db' : Db) × (delete_node machines one_device 3 ≡ ok (t', db'))
          × (node_by_id t' 3 ≡ err missing)
          × All (λ (s : Instance). (s.node_id == 3) ≡ false) db'.instances
          × All (HasServer db'.instances) db'.rows)
delete_node-clears_example = delete_node-clears machines one_device 3 (refl, tt)
