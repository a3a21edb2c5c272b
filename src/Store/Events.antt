-- ===== src/Store/Events.antt =====
-- internal/store/events.go: the journal of events. Times are in whole seconds.
use tunploy.Common.{
  ℕ, zero, suc, Bool, true, false, not, ◌&&◌, ◌||◌, Option, none, some, List, [], ◌∷◌, ◌++◌, ltb,
  ◌==◌, if◌then◌else◌, is_empty, any, select, eq_text,
}
use tunploy.Common.Text.{Text, codes}
use tunploy.Event.{Event}
use tunploy.Store.Traffic.{seconds}
use tunploy.Store.Tables.{lower}

-- A row of events.
pub record Entry : Type 0 where
  pub event : Event
  pub open event use *
  pub id : ℕ
  pub country : Text
  pub actor : Text
  pub created_at : ℕ

pub record Journal : Type 0 where
  pub entries : List Entry
  pub next_id : ℕ

pub data Category : Type 0 where
  connection auth change every : Category

-- EventFilter; 0 and the empty list stand for no condition.
pub record Filter : Type 0 where
  pub before : ℕ
  pub after : ℕ
  pub is_ascending : Bool
  pub limit : ℕ
  pub instance_id : ℕ
  pub peer_id : ℕ
  pub category : Category
  pub kinds : List Text
  pub families : List Text

-- AddEvent, with the ID that it returns; an event without a time happens now.
add_event : Journal → Event → Text → Text → Option ℕ → ℕ → ℕ × Journal
add_event t e country actor at now = (
  t.next_id,
  record t {
    entries =
        t.entries
        ++ record {
          event = e;
          id = t.next_id;
          country = country;
          actor = actor;
          created_at = elim at [ none ↦ seconds now | some time ↦ seconds time ];
        }
          ∷ [];
    next_id = suc t.next_id;
  },
)

-- `kind LIKE 'p%'`, for a prefix without wildcards: LIKE folds ASCII letters.
abbrev like_prefix : Text → Text → Bool
like_prefix [] s = true
like_prefix (c ∷ p) [] = false
like_prefix (c ∷ p) (d ∷ s) = lower c == lower d && like_prefix p s

abbrev is_connection : Text → Bool
is_connection kind =
    eq_text kind (codes "device.connected") || eq_text kind (codes "device.disconnected")

abbrev is_auth : Text → Bool
is_auth kind = like_prefix (codes "auth.") kind

abbrev in_category : Category → Text → Bool
in_category connection kind = is_connection kind
in_category auth kind = is_auth kind
in_category change kind = not (is_connection kind) && not (is_auth kind)
in_category every kind = true

abbrev if_set : ℕ → Bool → Bool
if_set n b = n == 0 || b

-- The WHERE clause that Events builds.
matches_filter : Filter → Entry → Bool
matches_filter f e =
    if_set f.before (ltb e.id f.before)
    && if_set f.after (ltb f.after e.id)
    && (is_empty f.kinds || any (λ k. eq_text e.kind k) f.kinds)
    && (is_empty f.families || any (λ k. like_prefix (k ++ b'.' ∷ []) e.kind) f.families)
    && if_set f.instance_id (e.instance_id == f.instance_id)
    && if_set f.peer_id (e.peer_id == f.peer_id)
    && in_category f.category e.kind

abbrev first_of : ℕ → List Entry → List Entry
first_of zero es = []
first_of (suc n) [] = []
first_of (suc n) (e ∷ es) = e ∷ first_of n es

abbrev reversed : List Entry → List Entry → List Entry
reversed [] done = done
reversed (e ∷ es) done = reversed es (e ∷ done)

-- Events, of rows that stand in the order of their IDs.
events : Journal → Filter → List Entry
events t f =
    let found = select (matches_filter f) t.entries in
    first_of f.limit (if f.is_ascending then found else reversed found [])

-- DeleteEventsBefore, without the count.
delete_events_before : Journal → ℕ → Journal
delete_events_before t time = record t {
  entries = select (λ (e : Entry). not (ltb e.created_at (seconds time))) t.entries;
}
