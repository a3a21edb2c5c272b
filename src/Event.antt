-- ===== src/Event.antt =====
-- internal/event/event.go and text.go: the events that the commands on devices record.
use tunploy.Common.{ℕ, Bool, ◌||◌, Option, none, some, List, [], ◌∷◌, ◌++◌, if◌then◌else◌, is_some}
use tunploy.Common.Int.{ℤ, pos, ltz}
use tunploy.Common.Text.{Text, codes}
use tunploy.Wg.Model.{Instance, Peer, Period, unset, monthly, total, other}

pub record Event : Type 0 where
  pub kind : Text
  pub instance_id : ℕ
  pub instance_name : Text
  pub peer_id : ℕ
  pub peer_name : Text
  pub node_name : Text
  pub ip : Text
  pub detail : Text

-- ForInstance
abbrev pub for_instance : Text → Instance → Event
for_instance kind s = record {
  kind = kind;
  instance_id = s.id;
  instance_name = s.name;
  peer_id = 0;
  peer_name = [];
  node_name = [];
  ip = [];
  detail = [];
}

-- ForPeer
abbrev pub for_peer : Text → Instance → Peer → Event
for_peer kind s p = record (for_instance kind s) { peer_id = p.id; peer_name = p.name }

abbrev pub has_limits : Peer → Bool
has_limits p = ltz (pos 0) p.data_limit || is_some p.expires_at || ltz (pos 0) p.speed_limit

-- Floating-point numbers and local times as fmt, strconv and time print them: Bytes, Speed, Expiry
-- and Period.
pub record Texts : Type 0 where
  pub bytes : ℤ → Text
  pub speed : ℤ → Text
  pub expiry : ℕ → Text
  pub period : Peer → ℕ → Text

abbrev per : Period → Text
per total = codes " in total"
per unset = codes " a month"
per monthly = codes " a month"
per (other s) = codes " a month"

abbrev until : Texts → Option ℕ → List Text
until texts none = []
until texts (some t) = (codes "until " ++ texts.expiry t) ∷ []

abbrev parts : Texts → Peer → List Text
parts texts p =
    (if ltz (pos 0) p.data_limit then (texts.bytes p.data_limit ++ per p.limit_period) ∷ [] else [])
    ++ (if ltz (pos 0) p.speed_limit then texts.speed p.speed_limit ∷ [] else [])
    ++ until texts p.expires_at

abbrev join_parts : List Text → Text
join_parts [] = codes "no limits"
join_parts (p ∷ []) = p
join_parts (p ∷ q ∷ ps) = p ++ codes ", " ++ join_parts (q ∷ ps)

pub limits : Texts → Peer → Text
limits texts p = join_parts (parts texts p)
