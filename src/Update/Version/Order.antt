-- ===== src/Update/Version/Order.antt =====
-- The order of versions is strict.
use tunploy.Common.{
  ℕ, ◌≡◌, refl, sym, ap, ap₂, subst, ◌∙◌, ◌⊎◌, inl, inr, true, false, Option, none, some, [], ◌∷◌,
  arith,
}
use tunploy.Common.Text.{Text}
use tunploy.Update.Version.{
  Version, Ordering, less, same, more, compare_numbers, or_else, compare_texts, compare_pre,
  compare_versions, is_more, newer_of, newer, parse_version,
}

-- Seen from the other side.
abbrev flipped : Ordering → Ordering
flipped less = more
flipped same = same
flipped more = less

-- A comparison that puts things in a line.
record IsOrder {ℓ} {A : Type ℓ} (cmp : A → A → Ordering) : Type ℓ where
  pub self : (a : A) → cmp a a ≡ same
  pub equal : (a b : A) → cmp a b ≡ same → a ≡ b
  pub flip : (a b : A) → cmp b a ≡ flipped (cmp a b)
  pub trans : (a b c : A) → cmp a b ≡ more → cmp b c ≡ more → cmp a c ≡ more

numbers-IsOrder : IsOrder compare_numbers
numbers-IsOrder = record {
  self = λ a. ground arith;
  equal = λ a b h. ground arith;
  flip = λ a b. ground arith;
  trans = λ a b c h k. ground arith;
}

-- Which of two comparisons decides.
decided : (x y : Ordering) → or_else x y ≡ more → (x ≡ more) ⊎ ((x ≡ same) × (y ≡ more))
decided more y h = inl refl
decided same y h = inr (refl, h)
decided less y h = absurd (cc)

both_same : (x y : Ordering) → or_else x y ≡ same → (x ≡ same) × (y ≡ same)
both_same same y h = (refl, h)
both_same less y h = absurd (cc)
both_same more y h = absurd (cc)

flip-or_else : (x y : Ordering) → flipped (or_else x y) ≡ or_else (flipped x) (flipped y)
flip-or_else same y = refl
flip-or_else less y = refl
flip-or_else more y = refl

first_more : (x y : Ordering) → x ≡ more → or_else x y ≡ more
first_more x y h = rw h refl

second_more : (x y : Ordering) → x ≡ same → y ≡ more → or_else x y ≡ more
second_more x y h k = rw h k

-- One comparison after another, of two parts each.
module _ {A B : Type 0} (f : A → A → Ordering) (g : B → B → Ordering) (f_order : IsOrder f)
    (g_order : IsOrder g) where
  lex : A × B → A × B → Ordering
  lex p q = or_else (f p.0 q.0) (g p.1 q.1)

  lex_trans : (p q r : A × B) → lex p q ≡ more → lex q r ≡ more → lex p r ≡ more
  unfolding lex
  lex_trans p q r h k = elim (decided (f p.0 q.0) (g p.1 q.1) h) [
    | inl x ↦ elim (decided (f q.0 r.0) (g q.1 r.1) k) [
      | inl y ↦ first_more _ _ (f_order.trans p.0 q.0 r.0 x y)
      | inr (y, _) ↦ first_more _ _ (subst (λ a. f p.0 a ≡ more) (f_order.equal q.0 r.0 y) x)
    ]
    | inr (x, u) ↦ elim (decided (f q.0 r.0) (g q.1 r.1) k) [
      | inl y ↦ first_more _ _ (subst (λ a. f a r.0 ≡ more) (sym (f_order.equal p.0 q.0 x)) y)
      | inr (y, v) ↦
          second_more _ _ (subst (λ a. f a r.0 ≡ same) (sym (f_order.equal p.0 q.0 x)) y)
            (g_order.trans p.1 q.1 r.1 u v)
    ]
  ]

  lex-IsOrder : IsOrder lex
  unfolding lex
  lex-IsOrder = record {
    self = λ p. rw (f_order.self p.0) (g_order.self p.1);
    equal = λ p q h.
        let (x, y) = both_same (f p.0 q.0) (g p.1 q.1) h in
        ap₂ (λ a b. (a, b)) (f_order.equal p.0 q.0 x) (g_order.equal p.1 q.1 y);
    flip = λ p q.
        ap₂ or_else (f_order.flip p.0 q.0) (g_order.flip p.1 q.1)
        ∙ sym (flip-or_else (f p.0 q.0) (g p.1 q.1));
    trans = lex_trans;
  }

texts_self : (s : Text) → compare_texts s s ≡ same
texts_self [] = refl
texts_self (c ∷ s) = rw (numbers-IsOrder.self c) (texts_self s)

texts_equal : (s t : Text) → compare_texts s t ≡ same → s ≡ t
texts_equal [] [] h = refl
texts_equal [] (d ∷ t) h = absurd (cc)
texts_equal (c ∷ s) [] h = absurd (cc)
texts_equal (c ∷ s) (d ∷ t) h =
    let (x, y) = both_same (compare_numbers c d) (compare_texts s t) h in
    ap₂ (λ a b. a ∷ b) (numbers-IsOrder.equal c d x) (texts_equal s t y)

texts_flip : (s t : Text) → compare_texts t s ≡ flipped (compare_texts s t)
texts_flip [] [] = refl
texts_flip [] (d ∷ t) = refl
texts_flip (c ∷ s) [] = refl
texts_flip (c ∷ s) (d ∷ t) =
    ap₂ or_else (numbers-IsOrder.flip c d) (texts_flip s t)
    ∙ sym (flip-or_else (compare_numbers c d) (compare_texts s t))

texts_trans :
    (s t u : Text) → compare_texts s t ≡ more → compare_texts t u ≡ more → compare_texts s u ≡ more
texts_trans [] [] u h k = absurd (cc)
texts_trans [] (d ∷ t) u h k = absurd (cc)
texts_trans (c ∷ s) [] [] h k = refl
texts_trans (c ∷ s) [] (e ∷ u) h k = absurd (cc)
texts_trans (c ∷ s) (d ∷ t) [] h k = refl
texts_trans (c ∷ s) (d ∷ t) (e ∷ u) h k =
    elim (decided (compare_numbers c d) (compare_texts s t) h) [
      | inl x ↦ elim (decided (compare_numbers d e) (compare_texts t u) k) [
        | inl y ↦ first_more _ _ (numbers-IsOrder.trans c d e x y)
        | inr (y, _) ↦
            first_more _ _ (subst (λ a. compare_numbers c a ≡ more) (numbers-IsOrder.equal d e y) x)
      ]
      | inr (x, v) ↦ elim (decided (compare_numbers d e) (compare_texts t u) k) [
        | inl y ↦
            first_more _ _
              (subst (λ a. compare_numbers a e ≡ more) (sym (numbers-IsOrder.equal c d x)) y)
        | inr (y, w) ↦
            second_more _ _
              (subst (λ a. compare_numbers a e ≡ same) (sym (numbers-IsOrder.equal c d x)) y)
              (texts_trans s t u v w)
      ]
    ]

pre_self : (s : Text) → compare_pre s s ≡ same
pre_self [] = refl
pre_self (c ∷ s) = texts_self (c ∷ s)

pre_equal : (s t : Text) → compare_pre s t ≡ same → s ≡ t
pre_equal [] [] h = refl
pre_equal [] (d ∷ t) h = absurd (cc)
pre_equal (c ∷ s) [] h = absurd (cc)
pre_equal (c ∷ s) (d ∷ t) h = texts_equal (c ∷ s) (d ∷ t) h

pre_flip : (s t : Text) → compare_pre t s ≡ flipped (compare_pre s t)
pre_flip [] [] = refl
pre_flip [] (d ∷ t) = refl
pre_flip (c ∷ s) [] = refl
pre_flip (c ∷ s) (d ∷ t) = texts_flip (c ∷ s) (d ∷ t)

pre_trans :
    (s t u : Text) → compare_pre s t ≡ more → compare_pre t u ≡ more → compare_pre s u ≡ more
pre_trans [] [] u h k = absurd (cc)
pre_trans [] (d ∷ t) [] h k = absurd (cc)
pre_trans [] (d ∷ t) (e ∷ u) h k = refl
pre_trans (c ∷ s) [] u h k = absurd (cc)
pre_trans (c ∷ s) (d ∷ t) [] h k = absurd (cc)
pre_trans (c ∷ s) (d ∷ t) (e ∷ u) h k = texts_trans (c ∷ s) (d ∷ t) (e ∷ u) h k

pre-IsOrder : IsOrder compare_pre
pre-IsOrder = record { self = pre_self; equal = pre_equal; flip = pre_flip; trans = pre_trans }

abbrev parts : Version → ℕ × (ℕ × (ℕ × Text))
parts v = (v.major, (v.minor, (v.patch, v.pre)))

parts-IsOrder : IsOrder (
    lex compare_numbers
      (lex compare_numbers
        (lex compare_numbers compare_pre numbers-IsOrder pre-IsOrder)
        numbers-IsOrder
        (lex-IsOrder compare_numbers compare_pre numbers-IsOrder pre-IsOrder))
      numbers-IsOrder
      (lex-IsOrder compare_numbers _ numbers-IsOrder
        (lex-IsOrder compare_numbers compare_pre numbers-IsOrder pre-IsOrder)))
parts-IsOrder = lex-IsOrder compare_numbers _ numbers-IsOrder (
    lex-IsOrder compare_numbers _ numbers-IsOrder
      (lex-IsOrder compare_numbers compare_pre numbers-IsOrder pre-IsOrder))

versions_self : (v : Version) → compare_versions v v ≡ same
unfolding compare_versions lex
versions_self v = parts-IsOrder.self (parts v)

versions_equal : (v w : Version) → compare_versions v w ≡ same → v ≡ w
unfolding compare_versions lex
versions_equal v w h =
    ap
      (λ (p : ℕ × (ℕ × (ℕ × Text))). record {
        major = p.0;
        minor = p.1.0;
        patch = p.1.1.0;
        pre = p.1.1.1;
      })
      (parts-IsOrder.equal (parts v) (parts w) h)

versions_flip : (v w : Version) → compare_versions w v ≡ flipped (compare_versions v w)
unfolding compare_versions lex
versions_flip v w = parts-IsOrder.flip (parts v) (parts w)

versions_trans :
    (v w x : Version)
    → compare_versions v w ≡ more
    → compare_versions w x ≡ more
    → compare_versions v x ≡ more
unfolding compare_versions lex
versions_trans v w x h k = parts-IsOrder.trans (parts v) (parts w) (parts x) h k

more_of : (o : Ordering) → is_more o ≡ true → o ≡ more
more_of more h = refl
more_of same h = absurd (cc)
more_of less h = absurd (cc)

same_of : (o : Ordering) → is_more o ≡ false → is_more (flipped o) ≡ false → o ≡ same
same_of same h k = refl
same_of more h k = absurd (cc)
same_of less h k = absurd (cc)

newer_self : (v : Option Version) → newer_of v v ≡ false
newer_self none = refl
newer_self (some v) = rw (versions_self v) refl

newer-flip : (v w : Option Version) → newer_of v w ≡ true → newer_of w v ≡ false
newer-flip none w h = absurd (cc)
newer-flip (some v) none h = absurd (cc)
newer-flip (some v) (some w) h = rw (versions_flip v w, more_of (compare_versions v w) h) refl

newer_trans :
    (v w x : Option Version) → newer_of v w ≡ true → newer_of w x ≡ true → newer_of v x ≡ true
newer_trans none w x h k = absurd (cc)
newer_trans (some v) none x h k = absurd (cc)
newer_trans (some v) (some w) none h k = absurd (cc)
newer_trans (some v) (some w) (some x) h k =
    rw (versions_trans v w x (more_of (compare_versions v w) h) (more_of (compare_versions w x) k))
      refl

newer-total :
    (v w : Version)
    → newer_of (some v) (some w) ≡ false
    → newer_of (some w) (some v) ≡ false
    → v ≡ w
newer-total v w h k =
    versions_equal v w (same_of (compare_versions v w) h (rw⁻¹ (versions_flip v w) k))

-- The order of versions is strict and total: no version is newer than itself, of two versions at
-- most one is newer than the other, one that is newer than a newer one is newer, and two versions
-- of which neither is newer have the same numbers and the same prerelease.
pub newer-strict :
    (a b c : Text)
    → (newer a a ≡ false)
      × (newer a b ≡ true → newer b a ≡ false)
      × (newer a b ≡ true → newer b c ≡ true → newer a c ≡ true)
      × ((v w : Version)
          → parse_version a ≡ some v
          → parse_version b ≡ some w
          → newer a b ≡ false
          → newer b a ≡ false
          → v ≡ w)
unfolding newer
newer-strict a b c = (
  newer_self (parse_version a),
  newer-flip (parse_version a) (parse_version b),
  newer_trans (parse_version a) (parse_version b) (parse_version c),
  (λ v w p q h k. newer-total v w (rw (p, q) at h) (rw (p, q) at k)),
)
