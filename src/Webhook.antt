-- ===== src/Webhook.antt =====
-- internal/webhook/webhook.go: the dispatcher sends what is due, and tries again later.
pub mod Tries
mod Tests
use tunploy.Common.{
  ℕ, zero, suc, ◌+◌, ◌-◌, ◌*◌, ◌/◌, ◌%◌, ◌^◌, ◌≤◌, ◌<◌, ◌≡◌, refl, sym, ap, ap₂, subst, ◌∙◌, ◌≢◌,
  ◌↔◌, ◌⊎◌, inl, inr, Bool, true, false, not, ◌&&◌, ◌||◌, Option, none, some, List, [], ◌∷◌, ◌++◌,
  map, append_assoc, append-nil, arith, ltb, leb, ◌==◌, if◌then◌else◌, ltb→lt, lt→ltb, leb→le,
  le→leb, ==_iff, ==_refl, tests, and_true, Bool-cases, Option-cases, is_some, length,
  length-append, replicate, is_empty, find, any, all, select, update_where, All, All-append,
  All-select, All-find, All-update_where, All-mono, mem, mem-append, eq_text, eq_text_refl,
  eq_text_sound, get_or, set, length-set, get_or-set_self,
}
use tunploy.Common.Text.{Text, codes, byte_len, utf8_len}
use tunploy.Apperr.{Result, ok, err}
use tunploy.Store.Webhooks.{
  Webhook, Delivery, Attempt, Hooks, hook_by_id, due_deliveries, finish_attempt,
}

abbrev second : ℕ
second = 1_000_000_000

abbrev batch_size : ℕ
batch_size = 20

abbrev max_error_len : ℕ
max_error_len = 300

-- retryDelays
abbrev pub retry_delays : List ℕ
retry_delays =
    60 * second
    ∷ 300 * second
    ∷ 1800 * second
    ∷ 7200 * second
    ∷ 21600 * second
    ∷ 43200 * second
    ∷ []

-- What net/http makes of a delivery: a response with its status code and text, or an error's text;
-- `stopped` once the panel is shutting down, and the clock.
pub data Answer : Type 0 where
  response : ℕ → Text → Answer
  no_response : Text → Answer

pub record Net : Type 0 where
  pub post : Text → Delivery → ℕ → Answer
  pub sign : Text → ℕ → Text → Text
  pub stopped : ℕ → Bool
  pub took : Delivery → ℕ → ℕ

-- How a try went: the status, and the error of one that failed.
abbrev outcome : Answer → ℕ × Option Text
outcome (no_response e) = (0, some e)
outcome (response status text) =
    if ltb status 200 || ltb 299 status
    then (status, some (codes "the receiver answered " ++ text))
    else (status, none)

-- send, with the signature of the delivery's payload for its webhook.
send : Net → List Webhook → Delivery → ℕ → ℕ × Option Text
send net hooks d at = elim (hook_by_id hooks d.webhook_id) [
  | none ↦ outcome (net.post [] d at)
  | some w ↦ outcome (net.post (net.sign w.secret at d.payload) d at)
]

-- The code points that fit in so many bytes: ToValidUTF8 drops the one that a cut goes through.
abbrev fitting : ℕ → Text → Text
fitting n [] = []
fitting n (c ∷ s) =
    let rest = fitting (n - utf8_len c) s in if leb (utf8_len c) n then c ∷ rest else []

-- truncate
abbrev truncate : Text → ℕ → Text
truncate s n = if leb (byte_len s) n then s else fitting n s ++ 0x2026 ∷ []

abbrev pub next_try : ℕ → ℕ → Option ℕ
next_try attempts start =
    if ltb attempts (length retry_delays)
    then some (start + get_or retry_delays attempts 0)
    else none

abbrev pub attempt_of : Net → Delivery → ℕ → ℕ × Option Text → Attempt
attempt_of net d start (status, none) = record {
  at = start;
  status = status;
  error = [];
  duration = net.took d start;
  is_success = true;
  next = none;
}
attempt_of net d start (status, some e) = record {
  at = start;
  status = status;
  error = truncate e max_error_len;
  duration = net.took d start;
  is_success = false;
  next = next_try d.attempts start;
}

-- attempt: a try that the shutdown cut short is not recorded.
unfoldable attempt : Net → ℕ → Delivery → Hooks → Hooks
attempt net start d t =
    if net.stopped d.id
    then t
    else finish_attempt t d.id (attempt_of net d start (send net t.hooks d start))

abbrev attempt_all : Net → ℕ → List Delivery → Hooks → Hooks
attempt_all net now [] t = t
attempt_all net now (d ∷ ds) t = attempt_all net now ds (attempt net now d t)

-- deliverDue: its tries touch a delivery each, so one after the other stands for side by side.
unfoldable deliver_due : Net → ℕ → Hooks → ℕ × Hooks
deliver_due net now t =
    let due = due_deliveries t now batch_size in (length due, attempt_all net now due t)
