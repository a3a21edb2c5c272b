-- ===== src/Devices/Groups/Answers.antt =====
-- What the three commands on a group answer.
use tunploy.Common.{
  ◌≡◌, refl, sym, ap, ◌∙◌, ◌≢◌, ◌⊎◌, inl, inr, Option, none, List, [], ◌∷◌, map, all, All,
}
use tunploy.Apperr.{
  Result, ok, err, Error, ◌>>=◌, ◌>>◌, Fields, fields_error, fields_error_of, copy_fields,
  set_field, set_field-ne-nil,
}
use tunploy.Wg.Model.{Peer}
use tunploy.Wg.Validate.{validate_peer}
use tunploy.Devices.{World, Env, Clock, save, reset_saved, remove}
use tunploy.Devices.Commands.{save-applied, reset_saved-applied, remove-applied}
use tunploy.Devices.Groups.{
  each, check_all, keep_saved, update_jobs, delete_jobs, reset_jobs, update_group, delete_group,
  reset_group_usage,
}
use tunploy.Devices.Groups.Tunnels.{IsQuiet, Concludes, each-Concludes}

copy_fields-ne-nil : (all fs : Fields) → all ≢ [] → copy_fields all fs ≢ []
copy_fields-ne-nil all [] h = h
copy_fields-ne-nil all ((k, m) ∷ fs) h =
    copy_fields-ne-nil (set_field k m all) fs (set_field-ne-nil k m all)

no_fields : (fs : Fields) → fields_error_of fs ≡ ok tt → fs ≡ []
no_fields [] h = refl
no_fields (f ∷ fs) h = absurd (cc)

no_error : (fs : Fields) → fields_error fs ≡ ok tt → fs ≡ []
no_error [] h = refl
no_error ((k, m) ∷ fs) h =
    absurd (copy_fields-ne-nil (set_field k m []) fs (set_field-ne-nil k m []) (no_fields _ h))

both_ok : (a b : Result (Unit {0})) → (a >> b) ≡ ok tt → (a ≡ ok tt) × (b ≡ ok tt)
both_ok (err e) b h = absurd (cc)
both_ok (ok tt) b h = (refl, h)

abbrev drop_result : Unit {0} × World → Result (Option Peer × World)
drop_result c = ok (none, c.1)

module _ (env : Env) where
  abbrev IsSavable : Peer → Type 0
  IsSavable p = validate_peer env.is_json p ≡ []

  check_all-IsSavable : (ps : List Peer) → check_all env ps ≡ ok tt → All IsSavable ps
  check_all-IsSavable [] h = tt
  check_all-IsSavable (p ∷ ps) h =
      let (first, rest) =
        both_ok (fields_error (validate_peer env.is_json p)) (check_all env ps) h in
      (no_error (validate_peer env.is_json p) first, check_all-IsSavable ps rest)

  quiet_kept :
      (r : Result (Peer × World)) (w v : World) (p : Option Peer)
      → ((q : Peer) (u : World) → r ≡ ok (q, u) → u.applied ≡ w.applied)
      → keep_saved env r ≡ ok (p, v)
      → v.applied ≡ w.applied
  quiet_kept (err e) w v p h k = absurd (cc)
  quiet_kept (ok (q, u)) w v p h k =
      let same : u ≡ v = cc in ap (λ (x : World). x.applied) (sym same) ∙ h q u refl

  update_jobs-IsQuiet : (t : Clock) (ps : List (Peer × Peer)) → All IsQuiet (update_jobs env t ps)
  update_jobs-IsQuiet t [] = tt
  update_jobs-IsQuiet t ((before, after) ∷ ps) = (
    (λ s w v p e.
        quiet_kept (save env s before after t w) w v p
          (λ q u k. save-applied env s before after q t w u k) e),
    update_jobs-IsQuiet t ps,
  )

  reset_jobs-IsQuiet : (t : Clock) (ps : List Peer) → All IsQuiet (reset_jobs env t ps)
  reset_jobs-IsQuiet t [] = tt
  reset_jobs-IsQuiet t (p ∷ ps) = (
    (λ s w v o e.
        quiet_kept (reset_saved env s p t w) w v o (λ q u k. reset_saved-applied env s p q t w u k)
          e),
    reset_jobs-IsQuiet t ps,
  )

  quiet_removed :
      (r : Result (Unit {0} × World)) (w v : World) (p : Option Peer)
      → ((q : Unit {0}) (u : World) → r ≡ ok (q, u) → u.applied ≡ w.applied)
      → (r >>= drop_result) ≡ ok (p, v)
      → v.applied ≡ w.applied
  quiet_removed (err e) w v p h k = absurd (cc)
  quiet_removed (ok (q, u)) w v p h k =
      let same : u ≡ v = cc in ap (λ (x : World). x.applied) (sym same) ∙ h q u refl

  delete_jobs-IsQuiet : (ps : List Peer) → All IsQuiet (delete_jobs env ps)
  delete_jobs-IsQuiet [] = tt
  delete_jobs-IsQuiet (p ∷ ps) = (
    (λ s w v o e.
        quiet_removed (remove env s p w) w v o (λ q u k. remove-applied env s p q w u k) e),
    delete_jobs-IsQuiet ps,
  )

  -- A change of a group that was refused as a whole, or carried out.
  abbrev pub Answers : List (Peer × Peer) → Clock → World → Result (List Peer) × World → Type 0
  Answers ps t w out =
      ((e : Error) × (out ≡ (err e, w)))
      ⊎ (All IsSavable (map (λ (c : Peer × Peer). c.1) ps) × Concludes (update_jobs env t ps) w out)

  update_group-Answers :
      (ps : List (Peer × Peer)) (t : Clock) (w : World) → Answers ps t w (update_group env ps t w)
  unfolding update_group
  update_group-Answers ps t w = checked (check_all env (map (λ (c : Peer × Peer). c.1) ps)) refl
    where
      checked :
          (r : Result (Unit {0}))
          → check_all env (map (λ (c : Peer × Peer). c.1) ps) ≡ r
          → Answers ps t w
              (elim r [ err e ↦ (err e, w) | ok u ↦ each env (update_jobs env t ps) w ])
      checked (err e) q = inl (e, refl)
      checked (ok u) q = inr (
        check_all-IsSavable _ q,
        each-Concludes env (update_jobs env t ps) w (update_jobs-IsQuiet t ps),
      )

  -- On any devices and in any state: UpdateGroup either changes nothing at all, or every new value
  -- passes Peer.Validate. A group that is updated, deleted or reset has some first devices saved, one
  -- after another, and the store stays as the last of these left it, also when a later save fails;
  -- all are saved when the command succeeds. The tunnel of each server that a saved device is on is
  -- asked to update, and no tunnel twice.
  pub groups-Answer :
      (ps : List (Peer × Peer)) (qs : List Peer) (t : Clock) (w : World)
      → Answers ps t w (update_group env ps t w)
        × Concludes (delete_jobs env qs) w (delete_group env qs w)
        × Concludes (reset_jobs env t qs) w (reset_group_usage env qs t w)
  unfolding delete_group reset_group_usage
  groups-Answer ps qs t w = (
    update_group-Answers ps t w,
    each-Concludes env (delete_jobs env qs) w (delete_jobs-IsQuiet qs),
    each-Concludes env (reset_jobs env t qs) w (reset_jobs-IsQuiet t qs),
  )
