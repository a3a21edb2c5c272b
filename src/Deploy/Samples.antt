-- ===== src/Deploy/Samples.antt =====
-- A panel with one server and one device, and the machine it runs on.
use tunploy.Common.{true, false, none, some, [], ◌∷◌}
use tunploy.Common.Int.{pos}
use tunploy.Common.Text.{Text, codes}
use tunploy.Apperr.{Result, ok, err, no_container}
use tunploy.Wg.Samples.{office, phone}
use tunploy.Store.Tables.{Db}
use tunploy.Store.Peers.{new_row}
use tunploy.Deploy.{Container, Call, inspect_container, CallLog, Manager, BootEnd, Env}

abbrev pub up : Text → Container
up name = record {
  name = name;
  image = codes "image";
  state = codes "running";
  exit_code = pos 0;
  label = none;
}

abbrev pub reply : Call → Result Container
reply (inspect_container name) = ok (up name)
reply _ = err no_container

-- The answer to the last call.
abbrev pub last_answer : Result Container → CallLog → Result Container
last_answer r [] = r
last_answer r ((node, call) ∷ l) = last_answer (reply call) l

abbrev pub env : Env
env = record {
  prefix = codes "tunploy-wg-";
  image = codes "image";
  texts = record {
    bytes = λ z. codes "bytes";
    speed = λ z. codes "speed";
    expiry = λ t. codes "time";
    period = λ p t. codes "period";
  };
  duration = λ t. codes "time";
  error_text = λ e. codes "error";
  endpoint_host = λ t. t;
  parse_dump = λ t. ok [];
  reach = λ m n. none;
  on_done = λ l. ok tt;
  on_list = λ l. ok (record (up (codes "tunploy-wg-9")) { label = some (codes "9") } ∷ []);
  on_inspect = last_answer (err no_container);
  on_exists = λ l. ok true;
  on_names = λ l. ok (codes "1" ∷ codes "9" ∷ []);
  on_output = λ l. ok [];
  on_boot = λ l. ok (codes "tunploy:ready" ∷ [], BootEnd.stopped);
  is_time = λ t. false;
  clock = λ n. n;
  month = λ t. 0;
  day = λ t. 0;
}

-- The phone is over its limit of 100 bytes.
abbrev pub db : Db
db = record {
  instances = office ∷ [];
  rows = new_row phone ∷ [];
  counters = [];
  usage = record { peer_id = 1; day = 3; rx = 70; tx = 50 } ∷ [];
  next_instance = 2;
  next_peer = 2;
}

abbrev pub manager : Manager
manager = record {
  db = db;
  nodes = [];
  events = [];
  log = [];
  ticks = 0;
  activity = [];
  blocked = (1, []) ∷ [];
  down = (1, false) ∷ [];
  rebuild = [];
}
