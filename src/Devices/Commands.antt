-- ===== src/Devices/Commands.antt =====
-- What a command on one device leaves behind, whether it fails, is saved or is done.
use tunploy.Common.{eq_text, ◌≡◌, refl, sym, ap, ◌∙◌, none, some, [], ◌∷◌, ◌++◌, arith}
use tunploy.Apperr.{Result, ok, err, ◌>>=◌, ◌>>◌}
use tunploy.Wg.Model.{Instance, Peer}
use tunploy.Devices.{
  World, Env, Clock, save, reset_saved, remove, on_error, with_db, record_event, created_event,
  changes, same_switch, write_error,
}
use tunploy.Apperr.{fields_error}
use tunploy.Event.{for_peer}
use tunploy.Common.Text.{codes}
use tunploy.Devices.Changes.{Records, kinds_of}
use tunploy.Event.{limits}
use tunploy.Store.Tables.{Row, row_by_id}
use tunploy.Store.Peers.{peer_by_id}
use tunploy.Store.Peers.ReadBack.{updated}
use tunploy.Wg.Validate.{validate_peer}
use tunploy.Store.Peers.{create_peer, update_peer, delete_peer}
use tunploy.Store.Traffic.{reset_peer_usage}

-- A save that passes a check, asks the store, and then records what was saved.
saved-applied {ℓ κ} :
    {A : Type ℓ} {B : Type κ} (w : World) (check : Result (Unit {0})) (query : Result B)
    (next : B → A × World)
    → ((b : B) → (next b).1.applied ≡ w.applied)
    → (a : A) (v : World) → (check >> (query >>= λ b. ok (next b))) ≡ ok (a, v)
    → v.applied ≡ w.applied
saved-applied w (err d) query next h a v e = absurd (cc)
saved-applied w (ok u) (err d) next h a v e = absurd (cc)
saved-applied w (ok u) (ok b) next h a v e =
    let same : next b ≡ (a, v) = cc in sym (ap (λ c. c.1.applied) same) ∙ h b

module _ (env : Env) where
  changes-applied :
      (s : Instance) (p q : Peer) (w : World) → (changes env s p q w).applied ≡ w.applied
  changes-applied s p q w = ground arith

  pub save-applied :
      (s : Instance) (p p' q : Peer) (t : Clock) (w v : World)
      → save env s p p' t w ≡ ok (q, v)
      → v.applied ≡ w.applied
  unfolding save
  save-applied s p p' q t w v e =
      saved-applied w (fields_error (validate_peer env.is_json p'))
        (on_error write_error (update_peer w.db p' t.now))
        (λ c. (c.0, changes env s p c.0 (with_db c.1 w)))
        (λ c. changes-applied s p c.0 (with_db c.1 w)) q v e

  pub reset_saved-applied :
      (s : Instance) (p q : Peer) (t : Clock) (w v : World)
      → reset_saved env s p t w ≡ ok (q, v)
      → v.applied ≡ w.applied
  unfolding reset_saved
  reset_saved-applied s p q t w v e =
      saved-applied w (ok tt) (reset_peer_usage w.db p.id t.now t.day) _ (λ c. refl) q v e

  pub remove-applied :
      (s : Instance) (p : Peer) (u : Unit {0}) (w v : World)
      → remove env s p w ≡ ok (u, v)
      → v.applied ≡ w.applied
  unfolding remove
  remove-applied s p u w v e =
      saved-applied w (ok tt) (delete_peer w.db p.id)
        (λ db. (tt, record_event (for_peer (codes "device.deleted") s p) (with_db db w)))
        (λ db. refl) u v e

module _ (env : Env) where
  -- What a save leaves: the fields are in order, the store has done its query, and the events tell it.
  abbrev pub Created : Instance → Peer → Clock → World → Peer → World → Type 0
  Created s p t w a v =
      (fields_error (validate_peer env.is_json p) ≡ ok tt)
      × (create_peer w.db p t.now ≡ ok (a, v.db))
      × (v.events ≡ w.events ++ created_event env s a ∷ [])

  abbrev pub Updated : Peer → Peer → Clock → World → Peer → World → Type 0
  Updated p q t w a v =
      (fields_error (validate_peer env.is_json q) ≡ ok tt)
      × (update_peer w.db q t.now ≡ ok (a, v.db))
      × (peer_by_id v.db q.id ≡ ok a)
      × ((r : Row) × (row_by_id w.db.rows q.id ≡ some r) × (a ≡ updated q t.now r.peer))
      × Records
          (kinds_of (eq_text a.name p.name) (same_switch env a.enabled p.enabled)
            (eq_text (limits env.texts a) (limits env.texts p)) a.enabled)
          w v

  abbrev pub Reset : Peer → Clock → World → Peer → World → Type 0
  Reset p t w a v =
      (reset_peer_usage w.db p.id t.now t.day ≡ ok (a, v.db))
      × (peer_by_id v.db p.id ≡ ok a)
      × Records (codes "device.usage_reset" ∷ []) w v

  abbrev pub Deleted : Instance → Peer → World → Unit {0} → World → Type 0
  Deleted s p w u v =
      (delete_peer w.db p.id ≡ ok v.db)
      × (row_by_id v.db.rows p.id ≡ none)
      × (v.events ≡ w.events ++ for_peer (codes "device.deleted") s p ∷ [])
