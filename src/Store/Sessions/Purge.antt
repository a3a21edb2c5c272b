-- ===== src/Store/Sessions/Purge.antt =====
-- What removing sessions does to who is signed in.
use tunploy.Common.{
  ℕ, ◌≤◌, ◌≡◌, refl, sym, ap, ◌∙◌, ◌≢◌, inl, inr, not, Option, none, List, [], ◌∷◌, arith,
  Bool-cases, find, select, eq_text_sound,
}
use tunploy.Common.Text.{Text}
use tunploy.Apperr.{err, ◌>>=◌, missing}
use tunploy.Store.Peers.{or_missing}
use tunploy.Store.Users.{Users, user_by_id}
use tunploy.Store.Sessions.{
  Session, signs_in, is_live, has_hash, user_by_session_token, delete_session,
  delete_expired_sessions,
}

find_live :
    (hash : Text) (ss : List Session) (now later : ℕ)
    → now ≤ later
    → find (signs_in hash later) (select (is_live now) ss) ≡ find (signs_in hash later) ss
find_live hash [] now later h = refl
find_live hash (s ∷ ss) now later h = let rest = find_live hash ss now later h in ground arith

find_deleted :
    (hash : Text) (ss : List Session) (now : ℕ)
    → find (signs_in hash now) (select (λ s. not (has_hash hash s)) ss) ≡ none
find_deleted hash [] now = refl
find_deleted hash (s ∷ ss) now = let rest = find_deleted hash ss now in ground arith

find_other :
    (hash gone : Text) (ss : List Session) (now : ℕ)
    → hash ≢ gone
    → find (signs_in hash now) (select (λ s. not (has_hash gone s)) ss)
      ≡ find (signs_in hash now) ss
find_other hash gone [] now h = refl
find_other hash gone (s ∷ ss) now h = elim (Bool-cases (has_hash gone s)) [
  | inr kept ↦ (let rest = find_other hash gone ss now h in ground arith)
  | inl dropped ↦ elim (Bool-cases (has_hash hash s)) [
    | inl both ↦
        absurd
          (h (sym (eq_text_sound s.token_hash hash both) ∙ eq_text_sound s.token_hash gone dropped))
    | inr other ↦ (let rest = find_other hash gone ss now h in ground arith)
  ]
]

-- Clearing out the expired sessions changes nobody's sign-in from then on. After a session is
-- deleted its token signs nobody in, at any time, and each other token signs in whom it did.
pub sessions-sign_in :
    (t : Users) (ss : List Session) (hash other : Text) (now later : ℕ)
    → now ≤ later
    → other ≢ hash
    → (user_by_session_token t (delete_expired_sessions ss now) hash later
        ≡ user_by_session_token t ss hash later)
      × (user_by_session_token t (delete_session ss hash) hash later ≡ err missing)
      × (user_by_session_token t (delete_session ss hash) other later
          ≡ user_by_session_token t ss other later)
unfolding user_by_session_token delete_expired_sessions delete_session
sessions-sign_in t ss hash other now later h k =
    let after_find =
      λ (o : Option Session). or_missing o >>= λ (s : Session). user_by_id t s.user_id in
    (
      ap after_find (find_live hash ss now later h),
      ap after_find (find_deleted hash ss later),
      ap after_find (find_other other hash ss later k),
    )
