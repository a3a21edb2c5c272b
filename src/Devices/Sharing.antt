-- ===== src/Devices/Sharing.antt =====
-- internal/peer/share.go: links that show a device's owner its config and usage.
pub mod Links
use tunploy.Common.{
  ℕ, zero, suc, ◌+◌, ◌-◌, ◌*◌, ◌/◌, ◌%◌, ◌^◌, ◌≤◌, ◌<◌, ◌≡◌, refl, sym, ap, ap₂, subst, ◌∙◌, ◌≢◌,
  ◌↔◌, ◌⊎◌, inl, inr, Bool, true, false, not, ◌&&◌, ◌||◌, Option, none, some, List, [], ◌∷◌, ◌++◌,
  map, append_assoc, append-nil, arith, ltb, leb, ◌==◌, if◌then◌else◌, ltb→lt, lt→ltb, leb→le,
  le→leb, ==_iff, ==_refl, tests, and_true, Bool-cases, Option-cases, is_some, length,
  length-append, replicate, is_empty, find, any, all, select, update_where, All, All-append,
  All-select, All-find, All-update_where, All-mono, mem, mem-append, eq_text, eq_text_refl,
  eq_text_sound, get_or, set, length-set, get_or-set_self,
}
use tunploy.Common.Text.{Text, codes}
use tunploy.Apperr.{Result, ok, err, ◌>>=◌, Error, app, missing, not_found, plain, field_error}
use tunploy.Wg.Model.{Instance, Peer}
use tunploy.Wg.Limits.{has_expired}
use tunploy.Store.Tables.{Db}
use tunploy.Store.Peers.{set_peer_share, peer_by_share_token}
use tunploy.Store.Servers.{load_instance}
use tunploy.Event.{for_peer}
use tunploy.Devices.{World, Env, Clock, record_event, with_db}

abbrev until : Env → Option ℕ → Text
until env none = []
until env (some t) = codes "until " ++ env.texts.expiry t

abbrev pub set_link : Env → Instance → Peer → Option ℕ → Text → World → Result (Peer × World)
set_link env s p expires token w = set_peer_share w.db p.id token expires >>= λ c. ok (
  c.0,
  record_event (record (for_peer (codes "device.shared") s c.0) { detail = until env expires })
      (with_db c.1 w),
)

-- Share. The token is rand.Text's.
unfoldable pub share :
    Env → Instance → Peer → Option ℕ → Text → Clock → World → Result (Peer × World)
share env s p expires token t w =
    if has_expired expires t.now
    then err (field_error "expires_at" (plain "expires_at must be in the future"))
    else set_link env s p expires token w

-- Unshare
unshare : Instance → Peer → World → Result World
unshare s p w =
    if is_empty p.share_token
    then ok w
    else (set_peer_share w.db p.id [] none >>= λ c.
        ok (record_event (for_peer (codes "device.unshared") s p) (with_db c.1 w)))

-- The answer for a link that is gone, expired or never was.
abbrev pub gone : Error
gone = app not_found "not_found" (plain "this link has expired or was removed") []

abbrev is_missing : Error → Bool
is_missing missing = true
is_missing _ = false

abbrev shared_by : Db → ℕ → Result Peer → Result (Instance × Peer)
shared_by db now (err e) = if is_missing e then err gone else err e
shared_by db now (ok p) =
    if has_expired p.share_expires_at now
    then err gone
    else (load_instance db p.instance_id >>= λ s. ok (s, p))

-- Shared
pub shared : Db → Text → ℕ → Result (Instance × Peer)
shared db token now = shared_by db now (peer_by_share_token db token)
