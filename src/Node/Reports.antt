-- ===== src/Node/Reports.antt =====
-- What the events say of a node.
use tunploy.Common.{
  suc, ◌*◌, ◌^◌, ap, ◌∙◌, append_assoc, append-nil, ltb, inl, inr, Bool-cases, ℕ, ◌≡◌, refl, sym,
  subst, Bool, true, false, List, [], ◌∷◌, ◌++◌, arith, if◌then◌else◌,
}
use tunploy.Common.Text.{Text}
use tunploy.Node.{
  is_online, NodeEvent, came_online, went_offline, Conn, new_conn, set_online, set_offline, touch,
  touch_all, Session, refused, dropped, Loop, new_loop, turn, run, retry_min, retry_max,
}

-- Reports that take turns, from a node that is or is not reported down to one that is or is not.
abbrev pub TakesTurns : Bool → List NodeEvent → Bool → Type 0
TakesTurns down [] end = down ≡ end
TakesTurns down (came_online name ∷ es) end = (down ≡ true) × TakesTurns false es end
TakesTurns down (went_offline name error ∷ es) end = (down ≡ false) × TakesTurns true es end

TakesTurns-append :
    (a b c : Bool) (es fs : List NodeEvent)
    → TakesTurns a es b
    → TakesTurns b fs c
    → TakesTurns a (es ++ fs) c
TakesTurns-append a b c [] fs f g = subst (λ x. TakesTurns x fs c) (sym f) g
TakesTurns-append a b c (came_online name ∷ es) fs f g =
    (f.0, TakesTurns-append false b c es fs f.1 g)
TakesTurns-append a b c (went_offline name error ∷ es) fs f g =
    (f.0, TakesTurns-append true b c es fs f.1 g)

-- The reports so far, and what is noted: a node that is online is not reported down.
pub record Reported (c : Conn) : Type 0 where
  pub turns : TakesTurns false c.events c.reported_down
  pub up : is_online c.status.state ≡ true → c.reported_down ≡ false

back-TakesTurns :
    (b : Bool) (name : Text) (es : List NodeEvent)
    → TakesTurns false es b
    → TakesTurns false (if b then es ++ came_online name ∷ [] else es) false
back-TakesTurns true name es h =
    TakesTurns-append false true false es (came_online name ∷ []) h (refl, refl)
back-TakesTurns false name es h = h

gone-TakesTurns :
    (on b : Bool) (name error : Text) (es : List NodeEvent)
    → (on ≡ true → b ≡ false)
    → TakesTurns false es b
    → TakesTurns false
        (if on then es ++ went_offline name error ∷ [] else es)
        (if on then true else b)
gone-TakesTurns true b name error es up h =
    TakesTurns-append false b true es (went_offline name error ∷ []) h (up refl, refl)
gone-TakesTurns false b name error es up h = h

set_online-Reported :
    (daemon : Text) (now : ℕ) (c : Conn) → Reported c → Reported (set_online daemon now c)
unfolding set_online
set_online-Reported daemon now c h = record {
  turns = back-TakesTurns c.reported_down c.name c.events h.turns;
  up = λ e. refl;
}

set_offline-Reported :
    (error : Text) (now : ℕ) (c : Conn) → Reported c → Reported (set_offline error now c)
unfolding set_offline
set_offline-Reported error now c h = record {
  turns =
      gone-TakesTurns (is_online c.status.state) c.reported_down c.name error c.events h.up h.turns;
  up = λ e. absurd (cc);
}

touch_all-Reported : (ts : List ℕ) (c : Conn) → Reported c → Reported (touch_all ts c)
touch_all-Reported [] c h = h
touch_all-Reported (t ∷ ts) c h =
    touch_all-Reported ts (touch t c) (record { turns = h.turns; up = h.up })

turn-Reported : (s : Session) (l : Loop) → Reported l.conn → Reported (turn s l).conn
unfolding turn
turn-Reported (refused error now) l h = set_offline-Reported error now l.conn h
turn-Reported (dropped daemon now touches end) l h =
    let r =
      touch_all-Reported touches (set_online daemon now l.conn)
        (set_online-Reported daemon now l.conn h) in
    record { turns = r.turns; up = r.up }

run-Reported : (ss : List Session) (l : Loop) → Reported l.conn → Reported (run ss l).conn
run-Reported [] l h = h
run-Reported (s ∷ ss) l h = run-Reported ss (turn s l) (turn-Reported s l h)

abbrev pub capped : ℕ → ℕ
capped t = if ltb retry_max t then retry_max else t

-- The wait after a number of sessions in a row that never got up, besides the last one: five
-- seconds, doubled for each of them, and a minute at most.
abbrev pub backoff : ℕ → ℕ
backoff k = capped (retry_min * 2 ^ k)

-- The waits that go with some sessions, after others in a row that never got up.
abbrev pub waits_for : ℕ → List Session → List ℕ
waits_for k [] = []
waits_for k (refused error now ∷ ss) = backoff k ∷ waits_for (suc k) ss
waits_for k (dropped daemon now touches end ∷ ss) = waits_for 0 ss

capped-twice : (t : ℕ) → capped (capped t * 2) ≡ capped (t * 2)
capped-twice t = elim (Bool-cases (ltb retry_max t)) [
  | inl long ↦ let double : ltb retry_max (t * 2) ≡ true = ground arith in rw (long, double) refl
  | inr short ↦ rw short refl
]

backoff-twice : (k : ℕ) → capped (backoff k * 2) ≡ backoff (suc k)
backoff-twice k =
    let next : retry_min * 2 ^ k * 2 ≡ retry_min * 2 ^ suc k = omega arith in
    capped-twice (retry_min * 2 ^ k) ∙ ap capped next

run-waits :
    (ss : List Session) (k : ℕ) (l : Loop)
    → l.retry ≡ backoff k
    → (run ss l).waits ≡ l.waits ++ waits_for k ss
unfolding turn
run-waits [] k l h = sym (append-nil l.waits)
run-waits (refused error now ∷ ss) k l h =
    run-waits ss (suc k) (turn (refused error now) l) (ap (λ r. capped (r * 2)) h ∙ backoff-twice k)
    ∙ append_assoc l.waits (l.retry ∷ []) (waits_for (suc k) ss)
    ∙ ap (λ r. l.waits ++ r ∷ waits_for (suc k) ss) h
run-waits (dropped daemon now touches end ∷ ss) k l h =
    run-waits ss 0 (turn (dropped daemon now touches end) l) refl

-- What is to be reported of a node that was or was not up at last, and is or is not reported down.
abbrev pub reports_for : Text → Bool → Bool → List Session → List NodeEvent
reports_for name up down [] = []
reports_for name true down (refused error now ∷ ss) =
    went_offline name error ∷ reports_for name false true ss
reports_for name false down (refused error now ∷ ss) = reports_for name false down ss
reports_for name up true (dropped daemon now touches end ∷ ss) =
    came_online name ∷ reports_for name true false ss
reports_for name up false (dropped daemon now touches end ∷ ss) = reports_for name true false ss

-- What is noted of a node, and the events.
record IsNoted (name : Text) (up down : Bool) (es : List NodeEvent) (c : Conn) : Type 0 where
  pub named : c.name ≡ name
  pub is_up : is_online c.status.state ≡ up
  pub is_down : c.reported_down ≡ down
  pub so_far : c.events ≡ es

touch_all-IsNoted :
    (name : Text) (up down : Bool) (es : List NodeEvent) (ts : List ℕ) (c : Conn)
    → IsNoted name up down es c
    → IsNoted name up down es (touch_all ts c)
touch_all-IsNoted name up down es [] c h = h
touch_all-IsNoted name up down es (t ∷ ts) c h =
    touch_all-IsNoted name up down es ts (touch t c)
      (record { named = h.named; is_up = h.is_up; is_down = h.is_down; so_far = h.so_far })

set_online-IsNoted :
    (name daemon : Text) (now : ℕ) (up down : Bool) (es : List NodeEvent) (c : Conn)
    → IsNoted name up down es c
    → IsNoted name true false
        (if down then es ++ came_online name ∷ [] else es)
        (set_online daemon now c)
unfolding set_online
set_online-IsNoted name daemon now up down es c h = record {
  named = h.named;
  is_up = refl;
  is_down = refl;
  so_far = rw (h.is_down, h.named, h.so_far) refl;
}

set_offline-IsNoted :
    (name error : Text) (now : ℕ) (up down : Bool) (es : List NodeEvent) (c : Conn)
    → IsNoted name up down es c
    → IsNoted name false
        (if up then true else down)
        (if up then es ++ went_offline name error ∷ [] else es)
        (set_offline error now c)
unfolding set_offline
set_offline-IsNoted name error now up down es c h = record {
  named = h.named;
  is_up = refl;
  is_down = rw (h.is_up, h.is_down) refl;
  so_far = rw (h.is_up, h.named, h.so_far) refl;
}

dropped-IsNoted :
    (name daemon : Text) (now end : ℕ) (touches : List ℕ) (up down : Bool) (es : List NodeEvent)
    (l : Loop)
    → IsNoted name up down es l.conn
    → IsNoted name true false
        (if down then es ++ came_online name ∷ [] else es)
        (turn (dropped daemon now touches end) l).conn
unfolding turn
dropped-IsNoted name daemon now end touches up down es l h =
    let r =
      touch_all-IsNoted name true false _ touches (set_online daemon now l.conn)
        (set_online-IsNoted name daemon now up down es l.conn h) in
    record { named = r.named; is_up = r.is_up; is_down = r.is_down; so_far = r.so_far }

run-reports :
    (name : Text) (ss : List Session) (up down : Bool) (es : List NodeEvent) (l : Loop)
    → IsNoted name up down es l.conn
    → (run ss l).conn.events ≡ es ++ reports_for name up down ss
unfolding turn
run-reports name [] up down es l h = h.so_far ∙ sym (append-nil es)
run-reports name (refused error now ∷ ss) true down es l h =
    run-reports name ss false true (es ++ went_offline name error ∷ []) (turn (refused error now) l)
      (set_offline-IsNoted name error now true down es l.conn h)
    ∙ append_assoc es (went_offline name error ∷ []) (reports_for name false true ss)
run-reports name (refused error now ∷ ss) false down es l h =
    run-reports name ss false down es (turn (refused error now) l)
      (set_offline-IsNoted name error now false down es l.conn h)
run-reports name (dropped daemon now touches end ∷ ss) up true es l h =
    run-reports name ss true false (es ++ came_online name ∷ [])
      (turn (dropped daemon now touches end) l)
      (dropped-IsNoted name daemon now end touches up true es l h)
    ∙ append_assoc es (came_online name ∷ []) (reports_for name true false ss)
run-reports name (dropped daemon now touches end ∷ ss) up false es l h =
    run-reports name ss true false es (turn (dropped daemon now touches end) l)
      (dropped-IsNoted name daemon now end touches up false es l h)

-- After any number of sessions of a new connection, however each of them went: the events report
-- the node in turn as offline and as online again, beginning with offline, and end with offline
-- exactly when it is noted as reported down; a node that is noted online is not reported down; each
-- session that never got up is reported if it follows one that did, and each that got up if the node
-- was reported offline; and there was a wait after each session that never got up and after no other, of five seconds doubled
-- for each such session right before it, and of a minute at most.
pub run-TakesTurns :
    (name : Text) (now : ℕ) (ss : List Session)
    → let end = run ss (new_loop name now) in
      TakesTurns false end.conn.events end.conn.reported_down
      × (is_online end.conn.status.state ≡ true → end.conn.reported_down ≡ false)
      × (end.conn.events ≡ reports_for name false false ss)
      × (end.waits ≡ waits_for 0 ss)
run-TakesTurns name now ss =
    let h = run-Reported ss (new_loop name now) (record { turns = refl; up = λ e. refl }) in
    let known : IsNoted name false false [] (new_conn name now) = record {
      named = refl;
      is_up = refl;
      is_down = refl;
      so_far = refl;
    } in
    (
      h.turns,
      h.up,
      run-reports name ss false false [] (new_loop name now) known,
      run-waits ss 0 (new_loop name now) refl,
    )
