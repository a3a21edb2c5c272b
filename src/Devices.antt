-- ===== src/Devices.antt =====
-- internal/peer/peer.go: the commands on devices. Each one saves the change, records an event and
-- updates the running tunnel.
pub mod Changes
pub mod Endings
pub mod Commands
pub mod Groups
pub mod Sharing
mod Tests
use tunploy.Common.{
  ℕ, zero, suc, ◌+◌, ◌-◌, ◌*◌, ◌/◌, ◌%◌, ◌^◌, ◌≤◌, ◌<◌, ◌≡◌, refl, sym, ap, ap₂, subst, ◌∙◌, ◌≢◌,
  ◌↔◌, ◌⊎◌, inl, inr, Bool, true, false, not, ◌&&◌, ◌||◌, Option, none, some, List, [], ◌∷◌, ◌++◌,
  map, append_assoc, append-nil, arith, ltb, leb, ◌==◌, if◌then◌else◌, ltb→lt, lt→ltb, leb→le,
  le→leb, ==_iff, ==_refl, tests, and_true, Bool-cases, Option-cases, is_some, length,
  length-append, replicate, is_empty, find, any, all, select, update_where, All, All-append,
  All-select, All-find, All-update_where, All-mono, mem, mem-append, eq_text, eq_text_refl,
  eq_text_sound, get_or, set, length-set, get_or-set_self,
}
use Prim.Native.String.{String}
use tunploy.Common.Text.{Text, codes}
use tunploy.Apperr.{
  Result, ok, err, ◌>>=◌, ◌>>◌, Error, wrap, joined, conflict, upstream, format, plain, prefix,
  text, cause, fields_error, field_error, is_subnet_full, as_duplicate,
}
use tunploy.Wg.Model.{Instance, Peer, subnet}
use tunploy.Wg.Limits.{traffic_total}
use tunploy.Wg.Validate.{validate_peer}
use tunploy.Store.Tables.{Db, Row, row_by_id}
use tunploy.Store.Peers.{create_peer, move_peer, update_peer, delete_peer}
use tunploy.Store.Traffic.{limit_usage, reset_peer_usage, bytes}
use tunploy.Event.{Event, for_peer, has_limits, Texts, limits}
use package.text.Mathlib.Text.{◌==◌ as str_eq}

-- The store, the events so far and the servers whose tunnels were updated so far.
pub record World : Type 0 where
  pub db : Db
  pub events : List Event
  pub applied : List ℕ

-- What a command gets from outside: json.Valid, the texts of internal/event, and the interface
-- Tunnels, whose Apply may fail.
pub record Env : Type 0 where
  pub is_json : Text → Bool
  pub texts : Texts
  pub tunnel : World → ℕ → Option Error

-- The time, its day and the first day of its month.
pub record Clock : Type 0 where
  pub now : ℕ
  pub day : ℕ
  pub month : ℕ

-- A command's result: with `saved` it returns both the result and the error.
pub data Outcome {ℓ} (A : Type ℓ) : Type ℓ where
  done : A → Outcome A
  saved : A → Error → Outcome A
  failed : Error → Outcome A

abbrev pub record_event : Event → World → World
record_event e w = record w { events = w.events ++ e ∷ [] }

abbrev pub with_db : Db → World → World
with_db db w = record w { db = db }

-- The panel's code for a full subnet.
abbrev subnet_full_error : Instance → Error → Error
subnet_full_error s e =
    wrap conflict "subnet_full" (format "no free addresses left in %s" (prefix (subnet s) ∷ [])) []
      e

abbrev rewritten : Error → Option String → Error
rewritten e none = e
rewritten e (some column) =
    if str_eq column "name"
    then field_error "name" (plain "a peer with this name already exists")
    else (if str_eq column "public_key"
        then field_error "public_key" (plain "another device already uses this public key")
        else e)

-- writeError
abbrev pub write_error : Error → Error
write_error e = rewritten e (as_duplicate e)

-- applyError
abbrev pub apply_error : Error → Error
apply_error e =
    wrap upstream "apply_failed"
      (format "saved, but the running tunnel could not be updated (restart it to apply): %s"
        (cause ∷ []))
      [] e

abbrev pub on_error {ℓ} : {A : Type ℓ} → (Error → Error) → Result A → Result A
on_error f (err e) = err (f e)
on_error f (ok a) = ok a

abbrev pub create_error : Instance → Error → Error
create_error s e = if is_subnet_full e then subnet_full_error s e else write_error e

abbrev named : Option String → Bool
named none = false
named (some column) = str_eq column "name"

abbrev move_error : Instance → Peer → Error → Error
move_error to p e =
    if is_subnet_full e
    then subnet_full_error to e
    else (if named (as_duplicate e)
        then field_error "name" (
            format "%q already has a device named %q; rename one first"
              (text to.name ∷ text p.name ∷ []))
        else e)

abbrev pub join_errors : Option Error → Option Error → Option Error
join_errors none e = e
join_errors (some d) none = some d
join_errors (some d) (some e) = some (joined d e)

abbrev total_of : Option Row → Db → ℕ → Texts → Text
total_of none db month texts = texts.bytes (traffic_total (bytes 0 0))
total_of (some r) db month texts = texts.bytes (traffic_total (limit_usage db.usage r month))

module _ (env : Env) where
  -- Tunnels.Apply
  abbrev pub call_tunnel : ℕ → World → Option Error × World
  call_tunnel id w = (env.tunnel w id, record w { applied = w.applied ++ id ∷ [] })

  abbrev pub outcome {ℓ} : {A : Type ℓ} → A → Option Error × World → Outcome A × World
  outcome a (none, w) = (done a, w)
  outcome a (some e, w) = (saved a (apply_error e), w)

  -- The end of a command: it returns the error of a save that failed, and else updates the tunnel.
  abbrev pub answer {ℓ} : {A : Type ℓ} → ℕ → World → Result (A × World) → Outcome A × World
  answer id w (err e) = (failed e, w)
  answer id w (ok (a, w')) = outcome a (call_tunnel id w')

  abbrev pub created_event : Instance → Peer → Event
  created_event s q =
      let e = for_peer (codes "device.created") s q in
      if has_limits q then record e { detail = limits env.texts q } else e

  pub create_saved : Instance → Peer → Clock → World → Result (Peer × World)
  create_saved s p t w =
      fields_error (validate_peer env.is_json p)
      >> (on_error (create_error s) (create_peer w.db p t.now) >>= λ c.
          ok (c.0, record_event (created_event s c.0) (with_db c.1 w)))

  -- Create
  pub create : Instance → Peer → Clock → World → Outcome Peer × World
  create s p t w = answer s.id w (create_saved s p t w)

  abbrev pub renamed : Instance → Peer → Peer → World → World
  renamed s before q w =
      if eq_text q.name before.name
      then w
      else record_event
          (record (for_peer (codes "device.renamed") s q) { detail = codes "was " ++ before.name })
          w

  abbrev pub same_switch : Bool → Bool → Bool
  same_switch true b = b
  same_switch false b = not b

  abbrev pub switched : Instance → Peer → Peer → World → World
  switched s before q w =
      if same_switch q.enabled before.enabled
      then w
      else record_event
          (for_peer (if q.enabled then codes "device.enabled" else codes "device.disabled") s q) w

  abbrev relimited : Instance → Peer → Peer → World → World
  relimited s before q w =
      if eq_text (limits env.texts q) (limits env.texts before)
      then w
      else record_event
          (record (for_peer (codes "device.limits_changed") s q) { detail = limits env.texts q }) w

  -- The events of a change, in their order.
  abbrev pub changes : Instance → Peer → Peer → World → World
  changes s before q w = relimited s before q (switched s before q (renamed s before q w))

  -- save: Update without touching the tunnel.
  pub save : Instance → Peer → Peer → Clock → World → Result (Peer × World)
  save s before after t w =
      fields_error (validate_peer env.is_json after)
      >> (on_error write_error (update_peer w.db after t.now) >>= λ c.
          ok (c.0, changes s before c.0 (with_db c.1 w)))

  -- Update
  pub update : Instance → Peer → Peer → Clock → World → Outcome Peer × World
  update s before after t w = answer s.id w (save s before after t w)

  -- resetUsage
  pub reset_saved : Instance → Peer → Clock → World → Result (Peer × World)
  reset_saved s p t w = reset_peer_usage w.db p.id t.now t.day >>= λ c. ok (
    c.0,
    record_event
        (record (for_peer (codes "device.usage_reset") s c.0) {
          detail =
              total_of (row_by_id w.db.rows p.id) w.db t.month env.texts
              ++ codes " used "
              ++ env.texts.period p t.now;
        })
        (with_db c.1 w),
  )

  -- ResetUsage
  pub reset_usage : Instance → Peer → Clock → World → Outcome Peer × World
  reset_usage s p t w = answer s.id w (reset_saved s p t w)

  abbrev join_calls : Option Error → Option Error × World → Option Error × World
  join_calls d (e, w) = (join_errors d e, w)

  abbrev both_tunnels : ℕ → ℕ → World → Option Error × World
  both_tunnels a b w = let first = call_tunnel a w in join_calls first.0 (call_tunnel b first.1)

  abbrev moved : Instance → Instance → World → Result (Peer × Db) → Outcome Peer × World
  moved source to w (err e) = (failed e, w)
  moved source to w (ok (q, db)) = outcome q (
      both_tunnels source.id to.id (
        record_event
          (record (for_peer (codes "device.moved") to q) { detail = codes "from " ++ source.name })
          (with_db db w)))

  -- Move
  move : Instance → Instance → Peer → Clock → World → Outcome Peer × World
  move source to p t w =
      moved source to w (on_error (move_error to p) (move_peer w.db p.id to.id t.now))

  -- remove
  pub remove : Instance → Peer → World → Result (Unit {0} × World)
  remove s p w = delete_peer w.db p.id >>= λ db.
      ok (tt, record_event (for_peer (codes "device.deleted") s p) (with_db db w))

  -- Delete
  pub delete : Instance → Peer → World → Outcome (Unit {0}) × World
  delete s p w = answer s.id w (remove s p w)
