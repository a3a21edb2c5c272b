-- ===== src/Deploy.antt =====
-- internal/deploy/deploy.go: the manager of the servers' containers, and how it reaches a machine.
-- A machine answers each call as it likes; the calls made so far are kept in order.
pub mod Containers
pub mod Reconcile
pub mod Watch
pub mod Activity
pub mod Blocks
pub mod Missed
pub mod Ownership
pub mod Presence
pub mod Health
pub mod Files
pub mod Samples
mod Tests
use tunploy.Common.{
  ℕ, zero, suc, ◌+◌, ◌-◌, ◌*◌, ◌/◌, ◌%◌, ◌^◌, ◌≤◌, ◌<◌, ◌≡◌, refl, sym, ap, ap₂, subst, ◌∙◌, ◌≢◌,
  ◌↔◌, ◌⊎◌, inl, inr, Bool, true, false, not, ◌&&◌, ◌||◌, Option, none, some, List, [], ◌∷◌, ◌++◌,
  map, append_assoc, append-nil, arith, ltb, leb, ◌==◌, if◌then◌else◌, ltb→lt, lt→ltb, leb→le,
  le→leb, ==_iff, ==_refl, tests, and_true, Bool-cases, Option-cases, is_some, length,
  length-append, replicate, is_empty, find, any, all, select, update_where, All, All-append,
  All-select, All-find, All-update_where, All-mono, mem, mem-append, eq_text, eq_text_refl,
  eq_text_sound, get_or, set, length-set, get_or-set_self,
}
use tunploy.Common.Int.{
  ℤ, pos, negsuc, pos_part, neg_part, sub_ℕ, ◌+ℤ◌, ◌-ℤ◌, ◌≤ℤ◌, ◌<ℤ◌, ltz, lez, eqz, from_bits64,
  wrap64, add64, sub64, wrap64_pos, add64_pos, sub64_pos, eqz→eq, eqz_refl,
}
use tunploy.Common.Text.{Text, codes}
use tunploy.Common.Show.{int_text}
use tunploy.Apperr.{Result, ok, err, Error}
use tunploy.Wg.Model.{Instance, Peer, Key}
use tunploy.Wg.Limits.{Traffic, Block, unblocked, block_expired, block_limit, is_blocked, blocked}
use tunploy.Wg.Stats.{Stats}
use tunploy.Event.{Event, Texts}
use tunploy.Store.Tables.{Db, Row}
use tunploy.Store.Nodes.{Node}
use tunploy.Store.Peers.{on_instance}
use tunploy.Store.Traffic.{limit_usage}

-- docker.Container, with the label that names its instance.
pub record Container : Type 0 where
  pub name : Text
  pub image : Text
  pub state : Text
  pub exit_code : ℤ
  pub label : Option Text

-- Container.Running
abbrev pub is_running : Container → Bool
is_running ct = eq_text ct.state (codes "running")

-- docker.ContainerSpec, with what differs from server to server; the rest is constant.
pub record Spec : Type 0 where
  pub name : Text
  pub image : Text
  pub label : Text
  pub port : ℕ
  pub source : List Text

-- The calls of host.Host. A path is its parts below the machine's data directory.
pub data Call : Type 0 where
  list_containers : Call
  inspect_container remove_container start_container stop_container read_logs : Text → Call
  create_container : Spec → Call
  exec : Text → List Text → Call
  image_exists build_image : Text → Call
  write_file : List Text → Text → Call
  remove_all read_dir : List Text → Call

-- The calls so far, each with its node.
abbrev pub CallLog : Type 0
CallLog = List (ℕ × Call)

-- A device's last samples; times are instants.
pub record Sample : Type 0 where
  pub rx : ℕ
  pub since : ℕ
  pub seen : ℕ
  pub grew : Bool
  pub online : Bool
  pub online_since : Option ℕ

abbrev pub Samples : Type 0
Samples = List (Key × Sample)

abbrev pub Blocks : Type 0
Blocks = List (ℕ × Block)

-- Manager, with the store and the events behind it. Maps are lists of entries; `ticks` counts the
-- readings of the clock.
pub record Manager : Type 0 where
  pub db : Db
  pub nodes : List Node
  pub events : List Event
  pub log : CallLog
  pub ticks : ℕ
  pub activity : List (ℕ × Samples)
  pub blocked : List (ℕ × Blocks)
  pub down : List (ℕ × Bool)
  pub rebuild : List ℕ

-- How the log stream of a container that boots ends: with the container, after the boot timeout, or
-- with an error of the context or of reading.
pub data BootEnd : Type 0 where
  stopped timed_out : BootEnd
  broken : Error → BootEnd

-- What happens outside: the machines' answers to the last call of a log, whether a node is within
-- reach, the clock, and the first day of a time's month.
pub record Env : Type 0 where
  pub prefix : Text
  pub image : Text
  pub texts : Texts
  pub duration : ℕ → Text
  pub error_text : Error → Text
  pub endpoint_host : Text → Text
  pub parse_dump : Text → Result Stats
  pub reach : Manager → ℕ → Option Error
  pub on_done : CallLog → Result (Unit {0})
  pub on_list : CallLog → Result (List Container)
  pub on_inspect : CallLog → Result Container
  pub on_exists : CallLog → Result Bool
  pub on_names : CallLog → Result (List Text)
  pub on_output : CallLog → Result Text
  pub on_boot : CallLog → Result (List Text × BootEnd)
  pub is_time : Text → Bool
  pub clock : ℕ → ℕ
  pub month : ℕ → ℕ
  pub day : ℕ → ℕ

-- A step of the manager: what it did stays done when it fails.
abbrev pub M {ℓ} : Type ℓ → Type ℓ
M A = Manager → Result A × Manager

abbrev pub run_next {ℓ κ} :
    {A : Type ℓ} {B : Type κ} → Result A × Manager → (A → M B) → Result B × Manager
run_next (err e, m) f = (err e, m)
run_next (ok a, m) f = f a m

infixl 5 ◌>>=◌ ◌>>◌
abbrev pub ◌>>=◌ {ℓ κ} : {A : Type ℓ} {B : Type κ} → M A → (A → M B) → M B
◌>>=◌ first next m = run_next (first m) next

abbrev pub ◌>>◌ {κ} : {B : Type κ} → M (Unit {0}) → M B → M B
first >> last = first >>= λ _. last

abbrev pub pure {ℓ} : {A : Type ℓ} → A → M A
pure a m = (ok a, m)

abbrev pub fail {ℓ} : {A : Type ℓ} → Error → M A
fail e m = (err e, m)

abbrev pub lift {ℓ} : {A : Type ℓ} → Result A → M A
lift r m = (r, m)

abbrev pub state : M Manager
state m = (ok m, m)

abbrev pub change : (Manager → Manager) → M (Unit {0})
change f m = (ok tt, f m)

-- An entry of a map by its ID, its update and its removal.
module _ {ℓ} {V : Type ℓ} where
  abbrev pub entry_of : List (ℕ × V) → ℕ → Option V
  entry_of [] id = none
  entry_of ((i, v) ∷ es) id = if i == id then some v else entry_of es id

  abbrev pub put_entry : ℕ → V → List (ℕ × V) → List (ℕ × V)
  put_entry id v [] = (id, v) ∷ []
  put_entry id v ((i, w) ∷ es) = if i == id then (id, v) ∷ es else (i, w) ∷ put_entry id v es

  abbrev pub drop_entry : ℕ → List (ℕ × V) → List (ℕ × V)
  drop_entry id es = select (λ (e : ℕ × V). not (e.0 == id)) es

abbrev pub id_text : ℕ → Text
id_text id = int_text (pos id)

module _ (env : Env) where
  -- A call, and the machine's answer of its kind.
  abbrev pub ask {ℓ} : {A : Type ℓ} → (CallLog → Result A) → ℕ → Call → M A
  ask answer node call m =
      let log = m.log ++ (node, call) ∷ [] in (answer log, record m { log = log })

  abbrev pub tell : ℕ → Call → M (Unit {0})
  tell node call = ask env.on_done node call

  abbrev pub read_clock : M ℕ
  read_clock m = (ok (env.clock m.ticks), record m { ticks = suc m.ticks })

  -- ContainerName
  abbrev pub container_name : ℕ → Text
  container_name id = env.prefix ++ id_text id

  abbrev pub has_name : Text → Option Text → Bool
  has_name name none = false
  has_name name (some id) = eq_text name (env.prefix ++ id)

  -- owns
  unfoldable pub owns : Container → Bool
  owns ct = has_name ct.name ct.label

  -- hostFor
  abbrev pub reached : Option Error → M (Unit {0})
  reached none m = (ok tt, m)
  reached (some e) m = (err e, m)

  unfoldable pub host_for : ℕ → M (Unit {0})
  host_for node m = if node == 0 then (ok tt, m) else reached (env.reach m node) m

abbrev pub add_event : Event → M (Unit {0})
add_event e = change (λ m. record m { events = m.events ++ e ∷ [] })

-- configDir
abbrev pub config_dir : ℕ → List Text
config_dir id = codes "wireguard" ∷ id_text id ∷ []

-- Blocked, of the devices among some rows; the map holds no device that may connect.
abbrev pub put_block : ℕ → Block → Blocks → Blocks
put_block id b bs = if is_blocked b then (id, b) ∷ bs else bs

unfoldable pub blocks_of : Db → List Row → ℕ → ℕ → Blocks
blocks_of db [] now month = []
blocks_of db (r ∷ rs) now month =
    put_block r.id (blocked r.peer (limit_usage db.usage r month) now) (blocks_of db rs now month)

-- What blockedPeers returns: the devices, when the clock was read, and the blocks.
pub record Found : Type 0 where
  pub rows : List Row
  pub now : ℕ
  pub blocks : Blocks

-- The rest of a spec: iface, the files of a configuration, and the command that reads them again.
abbrev pub config_file : Text
config_file = codes "wg0.conf"

abbrev pub resolver_file : Text
resolver_file = codes "dns-servers.conf"

abbrev pub speed_limits_file : Text
speed_limits_file = codes "speed-limits.conf"
