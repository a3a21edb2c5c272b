-- ===== src/Devices/Changes.antt =====
-- The events of a change of a device.
use tunploy.Common.{
  ap₂, append-nil, append_assoc, Bool, true, false, if◌then◌else◌, map, List, eq_text, ◌≡◌, refl,
  sym, ap, ◌∙◌, [], ◌∷◌, ◌++◌, arith,
}
use tunploy.Wg.Model.{Instance, Peer}
use tunploy.Devices.{World, Env, record_event, changes, renamed, switched, same_switch}
use tunploy.Event.{for_peer}
use tunploy.Common.Text.{Text, codes}
use tunploy.Event.{Event, limits}

-- The kinds of the events of a change: a new name, the switch and new limits, in this order.
abbrev pub kinds_of : Bool → Bool → Bool → Bool → List Text
kinds_of same_name same_switch same_limits on =
    (if same_name then [] else codes "device.renamed" ∷ [])
    ++ ((if same_switch
          then []
          else (if on then codes "device.enabled" else codes "device.disabled") ∷ [])
        ++ (if same_limits then [] else codes "device.limits_changed" ∷ []))

-- The events that are new, by their kinds.
abbrev pub Records : List Text → World → World → Type 0
Records kinds w v =
    (new : List Event) × (v.events ≡ w.events ++ new) × (map (λ (e : Event). e.kind) new ≡ kinds)

Records-one :
    (b : Bool) (e : Event) (w : World)
    → Records (if b then [] else e.kind ∷ []) w (if b then w else record_event e w)
Records-one true e w = ([], sym (append-nil w.events), refl)
Records-one false e w = (e ∷ [], refl, refl)

kinds_append :
    (es fs : List Event)
    → map (λ (e : Event). e.kind) (es ++ fs)
      ≡ map (λ (e : Event). e.kind) es ++ map (λ (e : Event). e.kind) fs
kinds_append [] fs = refl
kinds_append (e ∷ es) fs = ap (λ ks. e.kind ∷ ks) (kinds_append es fs)

Records-trans :
    (ks js : List Text) (w v u : World) → Records ks w v → Records js v u → Records (ks ++ js) w u
Records-trans ks js w v u (new, e, h) (more, f, g) = (
  new ++ more,
  f ∙ ap (λ es. es ++ more) e ∙ append_assoc w.events new more,
  kinds_append new more ∙ ap₂ (λ a b. a ++ b) h g,
)

module _ (env : Env) where
  pub changes-events :
      (s : Instance) (p q : Peer) (w : World)
      → Records
          (kinds_of
            (eq_text q.name p.name)
            (same_switch env q.enabled p.enabled)
            (eq_text (limits env.texts q) (limits env.texts p))
            q.enabled)
          w
          (changes env s p q w)
  changes-events s p q w =
      let w1 : World = renamed env s p q w in
      let w2 : World = switched env s p q w1 in
      let w3 : World = changes env s p q w in
      let one : Records (if eq_text q.name p.name then [] else codes "device.renamed" ∷ []) w w1 =
        Records-one (eq_text q.name p.name)
          (record (for_peer (codes "device.renamed") s q) { detail = codes "was " ++ p.name }) w in
      let two : Records
          (if same_switch env q.enabled p.enabled
            then []
            else (if q.enabled then codes "device.enabled" else codes "device.disabled") ∷ [])
          w1 w2 =
        Records-one (same_switch env q.enabled p.enabled)
          (for_peer (if q.enabled then codes "device.enabled" else codes "device.disabled") s q)
          w1 in
      let three : Records
          (if eq_text (limits env.texts q) (limits env.texts p)
            then []
            else codes "device.limits_changed" ∷ [])
          w2 w3 =
        Records-one (eq_text (limits env.texts q) (limits env.texts p))
          (record (for_peer (codes "device.limits_changed") s q) { detail = limits env.texts q })
          w2 in
      Records-trans _ _ w w1 w3 one (Records-trans _ _ w1 w2 w3 two three)

  pub changes-db : (s : Instance) (p q : Peer) (w : World) → (changes env s p q w).db ≡ w.db
  changes-db s p q w = ground arith
