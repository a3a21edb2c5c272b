-- ===== src/Store/Sessions.antt =====
-- internal/store/sessions.go: who is signed in.
pub mod Purge
use tunploy.Common.{
  ℕ, zero, suc, ◌+◌, ◌-◌, ◌*◌, ◌/◌, ◌%◌, ◌^◌, ◌≤◌, ◌<◌, ◌≡◌, refl, sym, ap, ap₂, subst, ◌∙◌, ◌≢◌,
  ◌↔◌, ◌⊎◌, inl, inr, Bool, true, false, not, ◌&&◌, ◌||◌, Option, none, some, List, [], ◌∷◌, ◌++◌,
  map, append_assoc, append-nil, arith, ltb, leb, ◌==◌, if◌then◌else◌, ltb→lt, lt→ltb, leb→le,
  le→leb, ==_iff, ==_refl, tests, and_true, Bool-cases, Option-cases, is_some, length,
  length-append, replicate, is_empty, find, any, all, select, update_where, All, All-append,
  All-select, All-find, All-update_where, All-mono, mem, mem-append, eq_text, eq_text_refl,
  eq_text_sound, get_or, set, length-set, get_or-set_self,
}
use tunploy.Common.Text.{Text}
use tunploy.Apperr.{Result, ok, err, ◌>>=◌, missing, failure}
use tunploy.Store.Tables.{to_second}
use tunploy.Store.Peers.{or_missing}
use tunploy.Store.Users.{User, Users, user_by_id}
use tunploy.Store.Traffic.{seconds}

pub record Session : Type 0 where
  pub token_hash : Text
  pub user_id : ℕ
  pub user_agent : Text
  pub created_at : ℕ
  pub expires_at : ℕ

abbrev pub has_hash : Text → Session → Bool
has_hash hash s = eq_text s.token_hash hash

-- CreateSession: the hash is the primary key, and the user must exist.
create_session : Users → List Session → Text → ℕ → Text → ℕ → ℕ → Result (List Session)
create_session t ss hash user_id agent expires now =
    if any (has_hash hash) ss || not (any (λ (u : User). u.id == user_id) t.users)
    then err failure
    else ok (
        ss
        ++ record {
          token_hash = hash;
          user_id = user_id;
          user_agent = agent;
          created_at = to_second now;
          expires_at = to_second expires;
        }
          ∷ [])

abbrev pub is_live : ℕ → Session → Bool
is_live now s = ltb (seconds now) (seconds s.expires_at)

abbrev pub signs_in : Text → ℕ → Session → Bool
signs_in hash now s = has_hash hash s && is_live now s

-- UserBySessionToken
pub user_by_session_token : Users → List Session → Text → ℕ → Result User
user_by_session_token t ss hash now =
    or_missing (find (signs_in hash now) ss) >>= λ s. user_by_id t s.user_id

-- DeleteSession
pub delete_session : List Session → Text → List Session
delete_session ss hash = select (λ s. not (has_hash hash s)) ss

-- DeleteUserSessions
delete_user_sessions : List Session → ℕ → List Session
delete_user_sessions ss user_id = select (λ s. not (s.user_id == user_id)) ss

-- DeleteExpiredSessions, without the count.
pub delete_expired_sessions : List Session → ℕ → List Session
delete_expired_sessions ss now = select (is_live now) ss

-- SessionByTokenHash
session_by_token_hash : List Session → Text → Result Session
session_by_token_hash ss hash = or_missing (find (has_hash hash) ss)
