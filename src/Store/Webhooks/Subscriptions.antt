-- ===== src/Store/Webhooks/Subscriptions.antt =====
-- The SQL that picks the webhooks for an event.
use tunploy.Common.{
  ◌≡◌, refl, ap, ap₂, ◌∙◌, ◌≢◌, Bool, false, ◌&&◌, ◌||◌, List, [], ◌∷◌, ◌++◌, append_assoc, arith,
  ◌==◌, is_empty, any, All, All-mono, eq_text,
}
use tunploy.Common.Text.{Text}
use tunploy.Store.Webhooks.{Webhook, join_events, starts_with, contains, all_events, wants}

-- No comma, as in the kind of an event.
abbrev IsWord : Text → Type 0
IsWord w = All (λ c. c ≢ b',') w

abbrev is_among : Text → List Text → Bool
is_among kind [] = false
is_among kind (e ∷ es) = eq_text e kind || is_among kind es

-- A word and a comma at the front of a word and a comma.
starts-word :
    (k w s : Text)
    → IsWord k
    → IsWord w
    → starts_with (k ++ b',' ∷ []) (w ++ b',' ∷ s) ≡ eq_text w k
starts-word [] [] s h g = ground arith
starts-word [] (d ∷ w) s h g = ground (arith, g.0)
starts-word (c ∷ k) [] s h g = ground (arith, h.0)
starts-word (c ∷ k) (d ∷ w) s h g = let rest = starts-word k w s h.1 g.1 in ground arith

-- Within a word there is no start of a separated one.
contains-word :
    (p w s : Text) → IsWord w → contains (b',' ∷ p) (w ++ b',' ∷ s) ≡ contains (b',' ∷ p) (b',' ∷ s)
contains-word p [] s h = refl
contains-word p (c ∷ w) s h = let rest = contains-word p w s h.1 in ground (arith, h.0)

-- The separated words, each with a comma behind it.
abbrev spelled : List Text → Text
spelled [] = []
spelled (e ∷ es) = e ++ b',' ∷ spelled es

join-spelled : (e : Text) (es : List Text) → join_events (e ∷ es) ++ b',' ∷ [] ≡ spelled (e ∷ es)
join-spelled e [] = refl
join-spelled e (f ∷ es) =
    append_assoc e (b',' ∷ join_events (f ∷ es)) (b',' ∷ [])
    ∙ ap (λ s. e ++ b',' ∷ s) (join-spelled f es)

starts-nil : (k : Text) → starts_with (k ++ b',' ∷ []) [] ≡ false
starts-nil [] = refl
starts-nil (c ∷ k) = refl

contains-spelled :
    (kind : Text) (es : List Text)
    → IsWord kind
    → All IsWord es
    → contains (b',' ∷ kind ++ b',' ∷ []) (b',' ∷ spelled es) ≡ is_among kind es
contains-spelled kind [] h g = rw (starts-nil kind) refl
contains-spelled kind (e ∷ es) h g =
    ap₂ (λ a b. a || b) (starts-word kind e (spelled es) h g.0)
      (contains-word (kind ++ b',' ∷ []) e (spelled es) g.0 ∙ contains-spelled kind es h g.1)

-- The only subscription is the one to everything.
abbrev is_all : List Text → Bool
is_all [] = false
is_all (e ∷ []) = eq_text e all_events
is_all (e ∷ f ∷ es) = false

two-words : (e s : Text) → eq_text (e ++ b',' ∷ s) all_events ≡ false
two-words [] s = refl
two-words (c ∷ []) s = ground arith
two-words (c ∷ d ∷ e) s = ground arith

join-all : (es : List Text) → eq_text (join_events es) all_events ≡ is_all es
join-all [] = refl
join-all (e ∷ []) = refl
join-all (e ∷ f ∷ es) = two-words e (join_events (f ∷ es))

contains-join :
    (kind : Text) (es : List Text)
    → is_empty kind ≡ false
    → IsWord kind
    → All IsWord es
    → contains (b',' ∷ kind ++ b',' ∷ []) (b',' ∷ join_events es ++ b',' ∷ []) ≡ is_among kind es
contains-join [] es n h g = absurd (cc)
contains-join (c ∷ kind) [] n h g = contains-spelled (c ∷ kind) ([] ∷ []) h (tt, tt)
contains-join (c ∷ kind) (e ∷ es) n h g =
    ap (λ s. contains (b',' ∷ c ∷ kind ++ b',' ∷ []) (b',' ∷ s)) (join-spelled e es)
    ∙ contains-spelled (c ∷ kind) (e ∷ es) h g

abbrev has_comma : Text → Bool
has_comma s = any (λ c. c == b',') s

IsWord-of : (s : Text) → has_comma s ≡ false → IsWord s
IsWord-of [] h = tt
IsWord-of (c ∷ s) h = ((λ e. absurd (ground arith)), IsWord-of s (ground arith))

-- As long as neither the kind nor the subscriptions hold a comma and the kind is not empty, the SQL
-- picks a webhook exactly when it is on and is subscribed to everything, alone, or to this kind.
pub wants-is_among :
    (w : Webhook) (kind : Text)
    → is_empty kind ≡ false
    → has_comma kind ≡ false
    → All (λ e. has_comma e ≡ false) w.events
    → wants w kind ≡ (w.enabled && (is_all w.events || is_among kind w.events))
unfolding wants
wants-is_among w kind n h g =
    ap₂ (λ a b. w.enabled && (a || b)) (join-all w.events)
      (contains-join kind w.events n (IsWord-of kind h) (All-mono _ _ w.events IsWord-of g))
