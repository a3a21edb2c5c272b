-- ===== src/Node.antt =====
-- internal/node/pool.go: the connection to one node, which is made again whenever it is lost.
pub mod Reports
mod Tests
use tunploy.Common.{
  ℕ, zero, suc, ◌+◌, ◌-◌, ◌*◌, ◌/◌, ◌%◌, ◌^◌, ◌≤◌, ◌<◌, ◌≡◌, refl, sym, ap, ap₂, subst, ◌∙◌, ◌≢◌,
  ◌↔◌, ◌⊎◌, inl, inr, Bool, true, false, not, ◌&&◌, ◌||◌, Option, none, some, List, [], ◌∷◌, ◌++◌,
  map, append_assoc, append-nil, arith, ltb, leb, ◌==◌, if◌then◌else◌, ltb→lt, lt→ltb, leb→le,
  le→leb, ==_iff, ==_refl, tests, and_true, Bool-cases, Option-cases, is_some, length,
  length-append, replicate, is_empty, find, any, all, select, update_where, All, All-append,
  All-select, All-find, All-update_where, All-mono, mem, mem-append, eq_text, eq_text_refl,
  eq_text_sound, get_or, set, length-set, get_or-set_self,
}
use tunploy.Common.Text.{Text, codes}

abbrev second : ℕ
second = 1_000_000_000

-- retryMin and retryMax
abbrev pub retry_min : ℕ
retry_min = 5 * second

abbrev pub retry_max : ℕ
retry_max = 60 * second

pub data State : Type 0 where
  connecting online offline : State

-- Status; what Docker says of itself is a text.
pub record Status : Type 0 where
  pub state : State
  pub error : Text
  pub since : ℕ
  pub daemon : Option Text

pub data NodeEvent : Type 0 where
  -- node.online, and node.offline with its detail, with the node's name
  came_online : Text → NodeEvent
  went_offline : Text → Text → NodeEvent

-- conn, with the events recorded and the times at which the node was touched so far.
pub record Conn : Type 0 where
  pub name : Text
  pub has_host : Bool
  pub status : Status
  pub reported_down : Bool
  pub events : List NodeEvent
  pub touched : List ℕ

-- The conn that Add makes.
abbrev pub new_conn : Text → ℕ → Conn
new_conn name now = record {
  name = name;
  has_host = false;
  status = record { state = connecting; error = []; since = now; daemon = none };
  reported_down = false;
  events = [];
  touched = [];
}

abbrev pub is_online : State → Bool
is_online online = true
is_online offline = false
is_online connecting = false

abbrev pub is_offline : State → Bool
is_offline offline = true
is_offline online = false
is_offline connecting = false

-- clearHost
abbrev pub clear_host : Conn → Conn
clear_host c = record c { has_host = false }

abbrev pub touch : ℕ → Conn → Conn
touch now c = record c { touched = c.touched ++ now ∷ [] }

-- setOnline
unfoldable pub set_online : Text → ℕ → Conn → Conn
set_online daemon now c = touch now (record c {
  has_host = true;
  status = record {
    state = online;
    error = [];
    since = if is_online c.status.state then c.status.since else now;
    daemon = some daemon;
  };
  reported_down = false;
  events = if c.reported_down then c.events ++ came_online c.name ∷ [] else c.events;
})

-- setOffline
unfoldable pub set_offline : Text → ℕ → Conn → Conn
set_offline error now c = record c {
  has_host = false;
  status = record {
    state = offline;
    error = error;
    since = if is_offline c.status.state then c.status.since else now;
    daemon = c.status.daemon;
  };
  reported_down = if is_online c.status.state then true else c.reported_down;
  events =
      if is_online c.status.state then c.events ++ went_offline c.name error ∷ [] else c.events;
}

-- What SSH and Docker make of a session: it never got up, or it was up and dropped. The times are
-- those of the touches in between and of the end.
pub data Session : Type 0 where
  refused : Text → ℕ → Session
  dropped : Text → ℕ → List ℕ → ℕ → Session

abbrev pub touch_all : List ℕ → Conn → Conn
touch_all [] c = c
touch_all (t ∷ ts) c = touch_all ts (touch t c)

-- run between two sessions: the connection, the next wait, and the waits there were so far.
pub record Loop : Type 0 where
  pub conn : Conn
  pub retry : ℕ
  pub waits : List ℕ

abbrev pub new_loop : Text → ℕ → Loop
new_loop name now = record { conn = new_conn name now; retry = retry_min; waits = [] }

-- One turn of run: it waits only after a session that never got up, and then doubles the wait.
unfoldable pub turn : Session → Loop → Loop
turn (refused error now) l = record {
  conn = set_offline error now l.conn;
  retry = if ltb retry_max (l.retry * 2) then retry_max else l.retry * 2;
  waits = l.waits ++ l.retry ∷ [];
}
turn (dropped daemon now touches end) l = record l {
  conn = clear_host (touch end (touch_all touches (set_online daemon now l.conn)));
  retry = retry_min;
}

-- run, until the panel shuts down.
abbrev pub run : List Session → Loop → Loop
run [] l = l
run (s ∷ ss) l = run ss (turn s l)

abbrev stop : Conn → Conn
stop c = clear_host c

-- Rename
abbrev rename : Text → Conn → Conn
rename name c = record c { name = name }

-- Pool.Host: whether a node can be reached.
can_reach : Option Conn → Bool
can_reach none = false
can_reach (some c) = c.has_host

-- Pool.Status
pool_status : Option Conn → ℕ → Status
pool_status none zero_time = record {
  state = offline;
  error = codes "not connected";
  since = zero_time;
  daemon = none;
}
pool_status (some c) zero_time = c.status
