-- ===== src/Auth/Throttle/Entries.antt =====
-- The entries of a throttle when one is put, dropped or pruned.
use tunploy.Common.{
  select, ℕ, ◌≡◌, refl, sym, ap, subst, ◌∙◌, inl, inr, Bool, true, false, none, some, List, [], ◌∷◌,
  arith, if◌then◌else◌, Bool-cases, eq_text, eq_text_refl, eq_text_sound,
}
use tunploy.Common.Text.{Text}
use tunploy.Auth.Throttle.{Entry, entry_for, put_entry, drop_entry, is_past, prune}

pub eq_text_flip : (a b : Text) → eq_text a b ≡ false → eq_text b a ≡ false
eq_text_flip a b h = elim (Bool-cases (eq_text b a)) [
  | inr n ↦ n
  | inl same ↦
      absurd (cc (subst (λ x. eq_text x b ≡ true) (eq_text_sound b a same) (eq_text_refl b)))
]

pub apart :
    (k key other : Text)
    → eq_text k other ≡ true
    → eq_text key other ≡ false
    → eq_text k key ≡ false
apart k key other same h =
    subst (λ x. eq_text x key ≡ false) (sym (eq_text_sound k other same)) (eq_text_flip key other h)

pub entry-drop :
    (key other : Text) (es : List (Text × Entry))
    → eq_text key other ≡ false
    → entry_for key (drop_entry other es) ≡ entry_for key es
entry-drop key other [] h = refl
entry-drop key other ((k, f) ∷ es) h =
    let rest = entry-drop key other es h in
    elim (Bool-cases (eq_text k other)) [
      | inl same ↦ rw (same, apart k key other same h) rest
      | inr kept ↦ rw kept (ap (λ o. if eq_text k key then some f else o) rest)
    ]

pub entry-put :
    (key other : Text) (f : Entry) (es : List (Text × Entry))
    → eq_text key other ≡ false
    → entry_for key (put_entry other f es) ≡ entry_for key es
entry-put key other f [] h = rw (eq_text_flip key other h) refl
entry-put key other f ((k, g) ∷ es) h =
    let rest = entry-put key other f es h in
    elim (Bool-cases (eq_text k other)) [
      | inl same ↦ rw (same, eq_text_flip key other h, apart k key other same h) refl
      | inr kept ↦ rw kept (ap (λ o. if eq_text k key then some g else o) rest)
    ]

pub entry-put_self :
    (key : Text) (f : Entry) (es : List (Text × Entry))
    → entry_for key (put_entry key f es) ≡ some f
entry-put_self key f [] = rw (eq_text_refl key) refl
entry-put_self key f ((k, g) ∷ es) = elim (Bool-cases (eq_text k key)) [
  | inl same ↦ rw (same, eq_text_refl key) refl
  | inr other ↦ rw (other, other) (entry-put_self key f es)
]

pub entry-prune :
    (key : Text) (e : Entry) (now : ℕ) (es : List (Text × Entry))
    → entry_for key es ≡ some e
    → is_past now e ≡ false
    → entry_for key (prune now es) ≡ some e
entry-prune key e now [] h k = h
entry-prune key e now ((j, f) ∷ es) h k = elim (Bool-cases (eq_text j key)) [
  | inl here ↦
      let same : f ≡ e = ground arith in
      let live : is_past now f ≡ false = ap (is_past now) same ∙ k in rw (live, here) (ap some same)
  | inr other ↦
      let rest = entry-prune key e now es (ground arith) k in
      elim (Bool-cases (is_past now f)) [
        | inl past ↦ rw past rest
        | inr live ↦ rw (live, other) rest
      ]
]

-- A key without an entry gets none from an entry that goes.
pub select-none :
    (key : Text) (p : Text × Entry → Bool) (es : List (Text × Entry))
    → entry_for key es ≡ none
    → entry_for key (select p es) ≡ none
select-none key p [] h = refl
select-none key p ((k, f) ∷ es) h = elim (Bool-cases (eq_text k key)) [
  | inl here ↦ absurd (ground arith)
  | inr away ↦
      let rest = select-none key p es (ground arith) in
      elim (Bool-cases (p (k, f))) [ inl kept ↦ rw (kept, away) rest | inr gone ↦ rw gone rest ]
]

pub drop-none : (key : Text) (es : List (Text × Entry)) → entry_for key (drop_entry key es) ≡ none
drop-none key [] = refl
drop-none key ((k, f) ∷ es) = elim (Bool-cases (eq_text k key)) [
  | inl here ↦ rw here (drop-none key es)
  | inr away ↦ rw (away, away) (drop-none key es)
]
