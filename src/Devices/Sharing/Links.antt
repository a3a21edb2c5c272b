-- ===== src/Devices/Sharing/Links.antt =====
-- A link opens the device that it was made for, until it expires.
use tunploy.Common.{
  ℕ, ◌≡◌, refl, some, ap, ap₂, ◌∙◌, inl, inr, Bool, true, false, Option, List, [], ◌∷◌, arith, ◌==◌,
  if◌then◌else◌, Bool-cases, is_empty, find, update_where, eq_text, eq_text_refl,
}
use tunploy.Common.Text.{Text}
use tunploy.Apperr.{Result, ok, err, ◌>>=◌, >>=-eq-ok, failure}
use tunploy.Wg.Model.{Instance, Peer}
use tunploy.Wg.Limits.{has_expired}
use tunploy.Store.Tables.{null_time, Db, Row, row_by_id}
use tunploy.Store.Peers.{
  or_missing, set_peer_share, peer_by_share_token, peer_by_id, shared_row, token_clash, clash,
  update_row,
}
use tunploy.Store.Peers.ReadBack.{with_state, read_back, row-updated}
use tunploy.Store.Servers.{load_instance}
use tunploy.Devices.{World, Env, Clock}
use tunploy.Devices.Sharing.{share, set_link, shared, gone}

abbrev has_token : Text → Row → Bool
has_token token r = eq_text r.share_token token

-- Where no other device has the token, the device with the ID is the one with the token.
found_by_token :
    (token : Text) (expires : Option ℕ) (rows : List Row) (id : ℕ)
    → clash (has_token token) rows id ≡ false
    → let rows' = update_where (λ (q : Row). q.id == id) (shared_row token expires) rows in
      find (has_token token) rows' ≡ row_by_id rows' id
found_by_token token expires [] id h = refl
found_by_token token expires (q ∷ rows) id h = elim (Bool-cases (q.id == id)) [
  | inl here ↦ ground (arith, eq_text_refl token)
  | inr away ↦ ground (arith, found_by_token token expires rows id)
]

unless_clash :
    (b : Bool) (o : Result (Peer × Db)) (c : Peer × Db)
    → (if b then err failure else o) ≡ ok c
    → (b ≡ false) × (o ≡ ok c)
unless_clash true o c h = absurd (cc)
unless_clash false o c h = (refl, h)

share_row :
    (db db' : Db) (id : ℕ) (token : Text) (expires : Option ℕ) (p : Peer)
    → set_peer_share db id token expires ≡ ok (p, db')
    → (token_clash db id token ≡ false)
      × (db' ≡ update_row (shared_row token expires) id db)
      × (peer_by_id (update_row (shared_row token expires) id db) id ≡ ok p)
unfolding set_peer_share
share_row db db' id token expires p e =
    let db'' = update_row (shared_row token expires) id db in
    let write = peer_by_id db'' id >>= with_state db'' in
    let (r, found, rest) =
      >>=-eq-ok (or_missing (row_by_id db.rows id))
        (λ r. if token_clash db id token then err failure else write) e in
    let (free, made) = unless_clash (token_clash db id token) write (p, db') rest in
    let (same, read) = read_back (peer_by_id db'' id) db'' db' p made in (free, same, read)

saved_link :
    (db db' : Db) (id : ℕ) (token : Text) (expires : Option ℕ) (p : Peer)
    → is_empty token ≡ false
    → set_peer_share db id token expires ≡ ok (p, db')
    → (peer_by_share_token db' token ≡ ok p) × (db'.instances ≡ db.instances)
unfolding peer_by_share_token peer_by_id
saved_link db db' id token expires p h e =
    let (free, same, read) = share_row db db' id token expires p e in
    let no_clash : clash (has_token token) db.rows id ≡ false = rw h at free in
    let found = found_by_token token expires db.rows id no_clash in
    let link : peer_by_share_token (update_row (shared_row token expires) id db) token ≡ ok p =
      rw h (ap (λ o. or_missing o >>= λ (r : Row). ok r.peer) found ∙ read) in
    (ap (λ (d : Db). peer_by_share_token d token) same ∙ link, ap (λ (d : Db). d.instances) same)

ok_inj : (x y : Peer × World) → ok x ≡ ok y → x ≡ y
ok_inj x y e = cc

share_of_link :
    (env : Env) (s : Instance) (p q : Peer) (expires : Option ℕ) (token : Text) (t : Clock)
    (w w' : World)
    → share env s p expires token t w ≡ ok (q, w')
    → set_peer_share w.db p.id token expires ≡ ok (q, w'.db)
unfolding share
share_of_link env s p q expires token t w w' e = elim (Bool-cases (has_expired expires t.now)) [
  | inl past ↦ absurd (ground arith)
  | inr future ↦
      let set : set_link env s p expires token w ≡ ok (q, w') = rw future at e in
      let (c, saved, same) = >>=-eq-ok (set_peer_share w.db p.id token expires) _ set in
      let pair = ok_inj _ _ same in
      saved
      ∙ ap₂ (λ a b. ok (a, b)) (ap (λ (x : Peer × World). x.0) pair)
          (ap (λ (x : Peer × World). x.1.db) pair)
]

shared_of :
    (db : Db) (later : ℕ) (token : Text) (p : Peer) (s : Instance)
    → peer_by_share_token db token ≡ ok p
    → load_instance db p.instance_id ≡ ok s
    → shared db token later ≡ (if has_expired p.share_expires_at later then err gone else ok (s, p))
unfolding shared
shared_of db later token p s h k = rw (h, k) refl

-- The device that is shared: what the store has of it, with the token and the expiry.
abbrev pub linked : Text → Option ℕ → Peer → Peer
linked token expires p = record p { share_token = token; share_expires_at = null_time expires }

-- A link that was made for a device opens that device as the store had it, with the link's token and
-- its expiry in whole seconds, and with its server, until that expiry; from then on it is answered
-- like a link that never was. The token is not empty, and the device's server is known.
pub share-shared :
    (env : Env) (s s' : Instance) (p q : Peer) (expires : Option ℕ) (token : Text) (t : Clock)
    (w w' : World) (later : ℕ)
    → is_empty token ≡ false
    → share env s p expires token t w ≡ ok (q, w')
    → load_instance w.db q.instance_id ≡ ok s'
    → (r : Row) × (row_by_id w.db.rows p.id ≡ some r)
      × (q ≡ linked token expires r.peer)
      × (shared w'.db token later
          ≡ (if has_expired (null_time expires) later then err gone else ok (s', q)))
unfolding peer_by_id
share-shared env s s' p q expires token t w w' later h e k =
    let saved = share_of_link env s p q expires token t w w' e in
    let (free, same_db, read) = share_row w.db w'.db p.id token expires q saved in
    let (r, found, made) =
      row-updated (shared_row token expires) w.db.rows p.id q (λ r. refl) read in
    let (link, same) = saved_link w.db w'.db p.id token expires q h saved in
    (
      r,
      found,
      made,
      shared_of w'.db later token q s' link
            (ap (λ ss. or_missing (find (λ (x : Instance). x.id == q.instance_id) ss)) same ∙ k)
          ∙ ap (λ (x : Peer). if has_expired x.share_expires_at later then err gone else ok (s', q))
              made,
    )
