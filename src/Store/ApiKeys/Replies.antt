-- ===== src/Store/ApiKeys/Replies.antt =====
-- A request that is sent again runs once.
use tunploy.Common.{
  ℕ, ◌+◌, ◌≤◌, ◌≡◌, refl, sym, ap, subst, ◌∙◌, ◌≢◌, inl, inr, Bool, true, false, not, ◌&&◌, Option,
  none, some, List, [], ◌∷◌, ◌++◌, arith, ltb, ◌==◌, if◌then◌else◌, ==_refl, Bool-cases, find,
  select, update_where, All, eq_text, eq_text_refl, eq_text_sound,
}
use tunploy.Common.Text.{Text}
use tunploy.Apperr.{Result, ok, err, idempotency_mismatch, idempotency_busy}
use tunploy.Store.Traffic.{seconds}
use tunploy.Store.ApiKeys.{
  Reply, Response, idempotency_ttl, idempotency_stale, is_for, has_lapsed, lapses, response_of,
  new_reply, replay, claim_found, claim_idempotency_key, finish_idempotency_key,
  release_idempotency_key, delete_idempotency_keys_before,
}

-- What happens to the table: a request with any key is claimed, finished or released, or old rows
-- are deleted.
pub data Step : Type 0 where
  claim : ℕ → Text → Text → ℕ → Step
  finish : ℕ → Text → Response → Step
  release : ℕ → Text → Step
  purge : ℕ → Step

abbrev kept_replies : List Reply → Result (Option Response × List Reply) → List Reply
kept_replies rs (err e) = rs
kept_replies rs (ok (r, rs')) = rs'

abbrev step : Step → List Reply → List Reply
step (claim id key hash now) rs = kept_replies rs (claim_idempotency_key rs id key hash now)
step (finish id key a) rs = finish_idempotency_key rs id key a
step (release id key) rs = release_idempotency_key rs id key
step (purge t) rs = delete_idempotency_keys_before rs t

abbrev pub steps : List Step → List Reply → List Reply
steps [] rs = rs
steps (s ∷ ss) rs = steps ss (step s rs)

abbrev is_same : ℕ → Text → ℕ → Text → Bool
is_same id key id' key' = id == id' && eq_text key key'

-- A step that leaves one reply alone: it is about another request, or a claim or a purge while the
-- reply has not lapsed.
abbrev Spares : Reply → Step → Type 0
Spares r (claim id key hash now) = has_lapsed now r ≡ false
Spares r (finish id key a) = is_for id key r ≡ false
Spares r (release id key) = is_for id key r ≡ false
Spares r (purge t) = ltb r.created_at (seconds t) ≡ false

-- The reply is the one that its key finds.
abbrev IsKept : Reply → List Reply → Type 0
IsKept r rs = find (is_for r.key_id r.key) rs ≡ some r

if-keeps :
    (p : Reply → Bool) (f : Reply → Reply) (b : Bool) (x : Reply)
    → p (f x) ≡ p x
    → p (if b then f x else x) ≡ p x
if-keeps p f true x h = h
if-keeps p f false x h = refl

find-select :
    (p q : Reply → Bool) (rs : List Reply) (r : Reply)
    → find p rs ≡ some r
    → q r ≡ true
    → find p (select q rs) ≡ some r
find-select p q [] r h k = h
find-select p q (x ∷ rs) r h k = elim (Bool-cases (p x)) [
  | inl here ↦
      let same : x ≡ r = ground arith in
      let kept : q x ≡ true = ap q same ∙ k in rw kept (rw here (ap some same))
  | inr other ↦ (let rest = find-select p q rs r (ground arith) k in ground arith)
]

find-append :
    (p : Reply → Bool) (rs new : List Reply) (r : Reply)
    → find p rs ≡ some r
    → find p (rs ++ new) ≡ some r
find-append p [] new r h = absurd (cc)
find-append p (x ∷ rs) new r h = elim (Bool-cases (p x)) [
  | inl here ↦ ground arith
  | inr other ↦ (let rest = find-append p rs new r (ground arith) in ground arith)
]

find-update_where :
    (p q : Reply → Bool) (f : Reply → Reply) (rs : List Reply) (r : Reply)
    → ((x : Reply) → p (f x) ≡ p x)
    → find p rs ≡ some r
    → find p (update_where q f rs) ≡ some (if q r then f r else r)
find-update_where p q f [] r k h = absurd (cc)
find-update_where p q f (x ∷ rs) r k h = elim (Bool-cases (p x)) [
  | inl here ↦
      let same : x ≡ r = ground arith in
      let head : p (if q x then f x else x) ≡ true = if-keeps p f (q x) x (k x) ∙ here in
      rw head (ap (λ y. some (if q y then f y else y)) same)
  | inr other ↦
      let head : p (if q x then f x else x) ≡ false = if-keeps p f (q x) x (k x) ∙ other in
      rw head (find-update_where p q f rs r k (ground arith))
]

claim_found-IsKept :
    (before rs : List Reply) (key_id : ℕ) (key hash : Text) (now : ℕ) (o : Option Reply) (r : Reply)
    → IsKept r before
    → IsKept r rs
    → IsKept r (kept_replies before (claim_found before rs key_id key hash now o))
claim_found-IsKept before rs key_id key hash now none r h k =
    find-append (is_for r.key_id r.key) rs (new_reply key_id key hash now ∷ []) r k
claim_found-IsKept before rs key_id key hash now (some x) r h k =
    elim (Bool-cases (eq_text x.request_hash hash)) [
      | inr other ↦ rw other h
      | inl same ↦ elim (Bool-cases (x.status == 0)) [
        | inl running ↦ rw (same, running) h
        | inr done ↦ rw (same, done) h
      ]
    ]

step-IsKept :
    (s : Step) (rs : List Reply) (r : Reply) → Spares r s → IsKept r rs → IsKept r (step s rs)
unfolding claim_idempotency_key finish_idempotency_key release_idempotency_key
    delete_idempotency_keys_before
step-IsKept (claim id key hash now) rs r spares h =
    let kept = select (λ x. not (lapses id key now x)) rs in
    claim_found-IsKept rs kept id key hash now (find (is_for id key) kept) r h
      (find-select (is_for r.key_id r.key) (λ x. not (lapses id key now x)) rs r h (ground arith))
step-IsKept (finish id key a) rs r spares h =
    find-update_where (is_for r.key_id r.key) (is_for id key)
      (λ x. record x { status = a.status; content_type = a.content_type; body = a.body }) rs r
      (λ x. refl) h
    ∙ ap
        (λ b. some (
          if b
          then record r { status = a.status; content_type = a.content_type; body = a.body }
          else r))
        spares
step-IsKept (release id key) rs r spares h =
    find-select (is_for r.key_id r.key) (λ x. not (is_for id key x)) rs r h (ground arith)
step-IsKept (purge t) rs r spares h =
    find-select (is_for r.key_id r.key) (λ x. not (ltb x.created_at (seconds t))) rs r h
      (ground arith)

steps-IsKept :
    (ss : List Step) (rs : List Reply) (r : Reply)
    → All (Spares r) ss
    → IsKept r rs
    → IsKept r (steps ss rs)
steps-IsKept [] rs r spares h = h
steps-IsKept (s ∷ ss) rs r spares h =
    steps-IsKept ss (step s rs) r spares.1 (step-IsKept s rs r spares.0 h)

-- A claim for a request whose reply is known.
claim-kept :
    (rs : List Reply) (r : Reply) (hash : Text) (now : ℕ)
    → IsKept r rs
    → has_lapsed now r ≡ false
    → claim_idempotency_key rs r.key_id r.key hash now ≡ replay r hash rs
unfolding claim_idempotency_key
claim-kept rs r hash now h live =
    let kept =
      find-select (is_for r.key_id r.key) (λ x. not (lapses r.key_id r.key now x)) rs r h
        (ground arith) in
    rw kept refl

-- The row of a request after it is finished.
abbrev pub finished : ℕ → Text → Text → ℕ → Response → Reply
finished key_id key hash now a = record (new_reply key_id key hash now) {
  status = a.status;
  content_type = a.content_type;
  body = a.body;
}

replay-same :
    (r : Reply) (hash : Text) (rs : List Reply)
    → r.request_hash ≡ hash
    → replay r hash rs
      ≡ (if r.status == 0 then err idempotency_busy else ok (some (response_of r), rs))
replay-same r hash rs same =
    let t : eq_text r.request_hash hash ≡ true =
      subst (λ h. eq_text r.request_hash h ≡ true) same (eq_text_refl r.request_hash) in
    rw t refl

replay-other :
    (r : Reply) (hash : Text) (rs : List Reply)
    → hash ≢ r.request_hash
    → replay r hash rs ≡ err idempotency_mismatch
replay-other r hash rs other = elim (Bool-cases (eq_text r.request_hash hash)) [
  | inl same ↦ absurd (other (sym (eq_text_sound r.request_hash hash same)))
  | inr differs ↦ rw differs refl
]

find-append_last :
    (p : Reply → Bool) (rs : List Reply) (r : Reply)
    → find p rs ≡ none
    → p r ≡ true
    → find p (rs ++ r ∷ []) ≡ some r
find-append_last p [] r h k = rw k refl
find-append_last p (x ∷ rs) r h k = elim (Bool-cases (p x)) [
  | inl here ↦ absurd (ground arith)
  | inr other ↦ (let rest = find-append_last p rs r (ground arith) k in ground arith)
]

replay-no_run : (r : Reply) (hash : Text) (rs rs' : List Reply) → replay r hash rs ≢ ok (none, rs')
replay-no_run r hash rs rs' e = elim (Bool-cases (eq_text r.request_hash hash)) [
  | inr differs ↦ absurd (ground arith)
  | inl same ↦ elim (Bool-cases (r.status == 0)) [
    | inl running ↦ absurd (ground arith)
    | inr done ↦ absurd (ground arith)
  ]
]

claimed :
    (rs kept rs' : List Reply) (key_id : ℕ) (key hash : Text) (now : ℕ) (o : Option Reply)
    → find (is_for key_id key) kept ≡ o
    → claim_found rs kept key_id key hash now o ≡ ok (none, rs')
    → IsKept (new_reply key_id key hash now) rs'
claimed rs kept rs' key_id key hash now none f e =
    let made : kept ++ new_reply key_id key hash now ∷ [] ≡ rs' = cc in
    subst (λ x. IsKept (new_reply key_id key hash now) x) made
      (find-append_last (is_for key_id key) kept (new_reply key_id key hash now) f
        (ground (arith, ==_refl key_id, eq_text_refl key)))
claimed rs kept rs' key_id key hash now (some x) f e = absurd (replay-no_run x hash rs rs' e)

claimed-IsKept :
    (rs rs' : List Reply) (key_id : ℕ) (key hash : Text) (now : ℕ)
    → claim_idempotency_key rs key_id key hash now ≡ ok (none, rs')
    → IsKept (new_reply key_id key hash now) rs'
unfolding claim_idempotency_key
claimed-IsKept rs rs' key_id key hash now e =
    let kept = select (λ r. not (lapses key_id key now r)) rs in
    claimed rs kept rs' key_id key hash now (find (is_for key_id key) kept) refl e

finished-IsKept :
    (rs : List Reply) (key_id : ℕ) (key hash : Text) (now : ℕ) (a : Response)
    → IsKept (new_reply key_id key hash now) rs
    → IsKept (finished key_id key hash now a) (finish_idempotency_key rs key_id key a)
unfolding finish_idempotency_key
finished-IsKept rs key_id key hash now a h =
    let r : Reply = new_reply key_id key hash now in
    let own : is_for key_id key r ≡ true = ground (arith, ==_refl key_id, eq_text_refl key) in
    find-update_where (is_for key_id key) (is_for key_id key)
      (λ x. record x { status = a.status; content_type = a.content_type; body = a.body }) rs r
      (λ x. refl) h
    ∙ ap (λ b. some (if b then finished key_id key hash now a else r)) own

-- A request that was told to run, at a time from 1970 on: until it is finished or its key is
-- released, and for five minutes, whatever happens to other requests, every further claim with its
-- key is refused, as busy when the request is the same one and as a mismatch when it is another.
-- Once it is finished with a status that is not zero, every claim of the same request in the first
-- day, again whatever happens to other requests, is answered with what it was finished with.
pub claim-once :
    (rs rs' : List Reply) (key_id : ℕ) (key hash other : Text) (now : ℕ)
    → (ss : List Step) (later : ℕ) (a : Response) (ts : List Step) (again : ℕ)
    → claim_idempotency_key rs key_id key hash now ≡ ok (none, rs')
    → All (Spares (new_reply key_id key hash now)) ss
    → later ≤ now + idempotency_stale
    → other ≢ hash
    → a.status ≢ 0
    → All (Spares (finished key_id key hash now a)) ts
    → again ≤ now + idempotency_ttl
    → let rs1 = steps ss rs' in
      let rs2 = steps ts (finish_idempotency_key rs1 key_id key a) in
      (claim_idempotency_key rs1 key_id key hash later ≡ err idempotency_busy)
      × (claim_idempotency_key rs1 key_id key other later ≡ err idempotency_mismatch)
      × (claim_idempotency_key rs2 key_id key hash again ≡ ok (some a, rs2))
claim-once rs rs' key_id key hash other now ss later a ts again e calm soon n done calm' day =
    let r : Reply = new_reply key_id key hash now in
    let r' : Reply = finished key_id key hash now a in
    let rs1 : List Reply = steps ss rs' in
    let rs2 : List Reply = steps ts (finish_idempotency_key rs1 key_id key a) in
    let live : has_lapsed later r ≡ false = ground arith in
    let live' : has_lapsed again r' ≡ false = ground arith in
    let nonzero : (a.status == 0) ≡ false = ground arith in
    let kept = steps-IsKept ss rs' r calm (claimed-IsKept rs rs' key_id key hash now e) in
    let kept' = steps-IsKept ts _ r' calm' (finished-IsKept rs1 key_id key hash now a kept) in
    (
      claim-kept rs1 r hash later kept live ∙ replay-same r hash rs1 refl,
      claim-kept rs1 r other later kept live ∙ replay-other r other rs1 n,
      claim-kept rs2 r' hash again kept' live' ∙ replay-same r' hash rs2 refl ∙ rw nonzero refl,
    )
