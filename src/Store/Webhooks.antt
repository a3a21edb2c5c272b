-- ===== src/Store/Webhooks.antt =====
-- internal/store/webhooks.go: webhooks, and what is still to be sent to them.
pub mod Subscriptions
use tunploy.Common.{
  ℕ, zero, suc, ◌+◌, ◌-◌, ◌*◌, ◌/◌, ◌%◌, ◌^◌, ◌≤◌, ◌<◌, ◌≡◌, refl, sym, ap, ap₂, subst, ◌∙◌, ◌≢◌,
  ◌↔◌, ◌⊎◌, inl, inr, Bool, true, false, not, ◌&&◌, ◌||◌, Option, none, some, List, [], ◌∷◌, ◌++◌,
  map, append_assoc, append-nil, arith, ltb, leb, ◌==◌, if◌then◌else◌, ltb→lt, lt→ltb, leb→le,
  le→leb, ==_iff, ==_refl, tests, and_true, Bool-cases, Option-cases, is_some, length,
  length-append, replicate, is_empty, find, any, all, select, update_where, All, All-append,
  All-select, All-find, All-update_where, All-mono, mem, mem-append, eq_text, eq_text_refl,
  eq_text_sound, get_or, set, length-set, get_or-set_self,
}
use tunploy.Common.Text.{Text, codes}
use tunploy.Apperr.{Result, ok, err, ◌>>=◌, missing, failure}
use tunploy.Store.Tables.{to_second}
use tunploy.Store.Peers.{or_missing}
use tunploy.Store.Traffic.{seconds}

-- Webhook
pub record Webhook : Type 0 where
  pub id : ℕ
  pub url : Text
  pub secret : Text
  pub events : List Text
  pub description : Text
  pub enabled : Bool
  pub created_by : Text
  pub created_at : ℕ
  pub updated_at : ℕ

pub data DeliveryState : Type 0 where
  pending succeeded failed : DeliveryState

-- Delivery, its times in whole seconds.
pub record Delivery : Type 0 where
  pub id : ℕ
  pub webhook_id : ℕ
  pub event_id : ℕ
  pub kind : Text
  pub payload : Text
  pub state : DeliveryState
  pub attempts : ℕ
  pub next_attempt : Option ℕ
  pub last_attempt : Option ℕ
  pub response_status : ℕ
  pub error : Text
  pub duration : ℕ
  pub created_at : ℕ

-- Attempt; times are instants.
pub record Attempt : Type 0 where
  pub at : ℕ
  pub status : ℕ
  pub error : Text
  pub duration : ℕ
  pub is_success : Bool
  pub next : Option ℕ

pub record Hooks : Type 0 where
  pub hooks : List Webhook
  pub deliveries : List Delivery
  pub next_hook : ℕ
  pub next_delivery : ℕ

abbrev pub hook_by_id : List Webhook → ℕ → Option Webhook
hook_by_id hooks id = find (λ (w : Webhook). w.id == id) hooks

-- CreateWebhook
create_webhook : Hooks → Webhook → ℕ → Webhook × Hooks
create_webhook t w now =
    let w' : Webhook = record w {
      id = t.next_hook;
      created_at = to_second now;
      updated_at = to_second now;
    } in
    (w', record t { hooks = t.hooks ++ w' ∷ []; next_hook = suc t.next_hook })

-- Webhooks
webhooks : Hooks → List Webhook
webhooks t = t.hooks

-- WebhookByID
webhook_by_id : Hooks → ℕ → Result Webhook
webhook_by_id t id = or_missing (hook_by_id t.hooks id)

abbrev pub is_pending : DeliveryState → Bool
is_pending pending = true
is_pending succeeded = false
is_pending failed = false

abbrev cancelled : Delivery → Delivery
cancelled d = record d {
  state = failed;
  next_attempt = none;
  error = codes "the webhook was turned off";
}

abbrev cancel_pending : ℕ → List Delivery → List Delivery
cancel_pending id ds =
    update_where (λ (d : Delivery). d.webhook_id == id && is_pending d.state) cancelled ds

abbrev updated_hook : Webhook → ℕ → Webhook → Webhook
updated_hook w now old = record old {
  url = w.url;
  events = w.events;
  description = w.description;
  enabled = w.enabled;
  updated_at = to_second now;
}

-- UpdateWebhook
unfoldable update_webhook : Hooks → Webhook → ℕ → Result (Webhook × Hooks)
update_webhook t w now = or_missing (hook_by_id t.hooks w.id) >>= λ old.
    (let t' : Hooks = record t {
      hooks = update_where (λ (v : Webhook). v.id == w.id) (updated_hook w now) t.hooks;
      deliveries = if w.enabled then t.deliveries else cancel_pending w.id t.deliveries;
    } in
      or_missing (hook_by_id t'.hooks w.id) >>= λ v. ok (v, t'))

-- DeleteWebhook, with the deliveries that go with it.
unfoldable delete_webhook : Hooks → ℕ → Result Hooks
delete_webhook t id = or_missing (hook_by_id t.hooks id) >>= λ _. ok (record t {
  hooks = select (λ (w : Webhook). not (w.id == id)) t.hooks;
  deliveries = select (λ (d : Delivery). not (d.webhook_id == id)) t.deliveries;
})

-- strings.Join(events, ",")
abbrev pub join_events : List Text → Text
join_events [] = []
join_events (e ∷ []) = e
join_events (e ∷ f ∷ es) = e ++ b',' ∷ join_events (f ∷ es)

abbrev pub starts_with : Text → Text → Bool
starts_with [] s = true
starts_with (c ∷ p) [] = false
starts_with (c ∷ p) (d ∷ s) = c == d && starts_with p s

-- instr(s, p) > 0
abbrev pub contains : Text → Text → Bool
contains p [] = starts_with p []
contains p (c ∷ s) = starts_with p (c ∷ s) || contains p s

abbrev pub all_events : Text
all_events = codes "*"

-- The WHERE clause of QueueDeliveries
unfoldable pub wants : Webhook → Text → Bool
wants w kind =
    w.enabled
    && (eq_text (join_events w.events) all_events
        || contains (b',' ∷ kind ++ b',' ∷ []) (b',' ∷ join_events w.events ++ b',' ∷ []))

abbrev pub new_delivery : ℕ → ℕ → ℕ → Text → Text → ℕ → Delivery
new_delivery id webhook_id event_id kind payload now = record {
  id = id;
  webhook_id = webhook_id;
  event_id = event_id;
  kind = kind;
  payload = payload;
  state = pending;
  attempts = 0;
  next_attempt = some (seconds now);
  last_attempt = none;
  response_status = 0;
  error = [];
  duration = 0;
  created_at = seconds now;
}

abbrev deliveries_for : ℕ → List Webhook → ℕ → Text → Text → ℕ → List Delivery
deliveries_for id [] event_id kind payload now = []
deliveries_for id (w ∷ ws) event_id kind payload now =
    new_delivery id w.id event_id kind payload now
    ∷ deliveries_for (suc id) ws event_id kind payload now

-- QueueDeliveries; the count is that of the webhooks that want the kind.
unfoldable queue_deliveries : Hooks → Text → ℕ → Text → ℕ → ℕ × Hooks
queue_deliveries t kind event_id payload now =
    let ws = select (λ w. wants w kind) t.hooks in
    (
      length ws,
      record t {
        deliveries = t.deliveries ++ deliveries_for t.next_delivery ws event_id kind payload now;
        next_delivery = t.next_delivery + length ws;
      },
    )

-- QueueDelivery: the webhook must exist.
unfoldable queue_delivery : Hooks → ℕ → Text → Text → ℕ → Result (Delivery × Hooks)
queue_delivery t webhook_id kind payload now =
    if is_some (hook_by_id t.hooks webhook_id)
    then (let d = new_delivery t.next_delivery webhook_id 0 kind payload now in
        ok (
          d,
          record t { deliveries = t.deliveries ++ d ∷ []; next_delivery = suc t.next_delivery },
        ))
    else err failure

abbrev delivery_of : List Delivery → ℕ → Option Delivery
delivery_of ds id = find (λ (d : Delivery). d.id == id) ds

-- DeliveryByID
delivery_by_id : Hooks → ℕ → Result Delivery
delivery_by_id t id = or_missing (delivery_of t.deliveries id)

abbrev with_delivery : (Delivery → Delivery) → ℕ → Hooks → Hooks
with_delivery f id t = record t {
  deliveries = update_where (λ (d : Delivery). d.id == id) f t.deliveries;
}

-- RetryDelivery
retry_delivery : Hooks → ℕ → ℕ → Result (Delivery × Hooks)
retry_delivery t id now = or_missing (delivery_of t.deliveries id) >>= λ _.
    (let t' =
        with_delivery (λ d. record d { state = pending; next_attempt = some (seconds now) }) id t in
      or_missing (delivery_of t'.deliveries id) >>= λ d. ok (d, t'))

abbrev due_by : Option ℕ → ℕ → Bool
due_by none now = false
due_by (some at) now = leb at (seconds now)

abbrev is_on : List Webhook → ℕ → Bool
is_on hooks id = any (λ (w : Webhook). w.id == id && w.enabled) hooks

abbrev is_due : Hooks → ℕ → Delivery → Bool
is_due t now d = is_pending d.state && due_by d.next_attempt now && is_on t.hooks d.webhook_id

abbrev next_time : Delivery → ℕ
next_time d = elim d.next_attempt [ none ↦ 0 | some at ↦ at ]

-- ORDER BY d.next_attempt_at, d.id, of rows that stand in the order of their IDs.
abbrev insert_due : Delivery → List Delivery → List Delivery
insert_due d [] = d ∷ []
insert_due d (e ∷ es) = if ltb (next_time e) (next_time d) then e ∷ insert_due d es else d ∷ e ∷ es

abbrev sort_due : List Delivery → List Delivery
sort_due [] = []
sort_due (d ∷ ds) = insert_due d (sort_due ds)

abbrev first_of : ℕ → List Delivery → List Delivery
first_of zero ds = []
first_of (suc n) [] = []
first_of (suc n) (d ∷ ds) = d ∷ first_of n ds

-- DueDeliveries
unfoldable pub due_deliveries : Hooks → ℕ → ℕ → List Delivery
due_deliveries t now limit = first_of limit (sort_due (select (is_due t now) t.deliveries))

abbrev pub state_after : Attempt → DeliveryState
state_after a =
    if a.is_success then succeeded else (elim a.next [ none ↦ failed | some at ↦ pending ])

abbrev second_of : Option ℕ → Option ℕ
second_of none = none
second_of (some t) = some (seconds t)

abbrev pub attempted : Attempt → Delivery → Delivery
attempted a d = record d {
  state = state_after a;
  attempts = suc d.attempts;
  next_attempt = second_of a.next;
  last_attempt = some (seconds a.at);
  response_status = a.status;
  error = a.error;
  duration = a.duration / 1_000_000;
}

-- FinishAttempt
unfoldable pub finish_attempt : Hooks → ℕ → Attempt → Hooks
finish_attempt t id a = with_delivery (attempted a) id t

-- Deliveries: rows stand in the order of their IDs, and the newest come first.
abbrev reversed : List Delivery → List Delivery → List Delivery
reversed [] done = done
reversed (d ∷ ds) done = reversed ds (d ∷ done)

deliveries_of : Hooks → ℕ → ℕ → ℕ → List Delivery
deliveries_of t webhook_id before limit = first_of limit (
    reversed
      (select (λ (d : Delivery). d.webhook_id == webhook_id && (before == 0 || ltb d.id before))
        t.deliveries)
      [])

-- DeleteDeliveriesBefore, without the count.
unfoldable delete_deliveries_before : Hooks → ℕ → Hooks
delete_deliveries_before t time = record t {
  deliveries =
      select (λ (d : Delivery). not (ltb d.created_at (seconds time) && not (is_pending d.state)))
        t.deliveries;
}
