-- ===== src/Wg/Validate/Laws.antt =====
-- What passes the checks on a device and on a server.
use Prim.Native.String.{String}
use tunploy.Common.{
  ◌≤◌, ◌≡◌, refl, ap, ◌≢◌, ◌↔◌, ◌⊎◌, inl, inr, Bool, true, false, not, ◌&&◌, Option, none, some, [],
  ◌∷◌, arith, length, is_empty, any,
}
use tunploy.Common.Int.{pos, ◌≤ℤ◌}
use tunploy.Common.Text.{Text, is_control, byte_len, trim_space}
use tunploy.Apperr.{Fields, flag-nil, set_field-ne-nil}
use tunploy.Wg.Model.{Peer, Period, unset, monthly, total, other, is_valid_period}
use tunploy.Wg.Validate.{
  flag_some, check_name, check_external_id, check_metadata, validate_peer, is_set,
  starts_with_brace, max_name_length, max_metadata_bytes, max_speed_limit,
}

pub flag_some-nil :
    (o : Option String) (k : String) (fs : Fields)
    → (flag_some o k fs ≡ []) ↔ (o ≡ none) × (fs ≡ [])
unfolding flag_some
flag_some-nil none k fs = (λ e. (refl, e), λ h. h.1)
flag_some-nil (some m) k fs = (λ e. absurd (set_field-ne-nil k _ fs e), λ h. absurd (cc))

-- A name that can stand in a comment line of a config.
pub record IsName (name : Text) : Type 0 where
  pub not_blank : trim_space name ≢ []
  pub short : length name ≤ max_name_length
  pub printable : any is_control name ≡ false

not_empty_of : (s : Text) → is_empty s ≡ false → s ≢ []
not_empty_of s h e = cc (ap is_empty e)

is_empty-false : (s : Text) → s ≢ [] → is_empty s ≡ false
is_empty-false [] h = absurd (h refl)
is_empty-false (c ∷ s) h = refl

pub check_name_iff : (name : Text) → (check_name name ≡ none) ↔ IsName name
unfolding check_name
check_name_iff name = (
  λ e. record {
    not_blank = not_empty_of _ (ground arith);
    short = ground arith;
    printable = ground arith;
  },
  λ h. ground (arith, h.short, h.printable, is_empty-false (trim_space name) h.not_blank),
)

-- The fields of a device that can be saved.
pub record IsPeer (is_json : Text → Bool) (p : Peer) : Type 0 where
  pub name : IsName p.name
  pub data_limit : pos 0 ≤ℤ p.data_limit
  pub speed_limit : (pos 0 ≤ℤ p.speed_limit) × (p.speed_limit ≤ℤ pos max_speed_limit)
  pub period : (s : Text) → p.limit_period ≢ other s
  pub external_id : (byte_len p.external_id ≤ 255) × (any is_control p.external_id ≡ false)
  pub metadata :
      (p.metadata ≡ [])
      ⊎ ((byte_len p.metadata ≤ max_metadata_bytes)
          × (is_json p.metadata ≡ true)
          × (starts_with_brace (trim_space p.metadata) ≡ true))

check_metadata_iff :
    (is_json : Text → Bool) (m : Text)
    → (check_metadata is_json m ≡ none) ↔ (
        (m ≡ [])
        ⊎ ((byte_len m ≤ max_metadata_bytes)
            × (is_json m ≡ true)
            × (starts_with_brace (trim_space m) ≡ true)))
unfolding check_metadata
check_metadata_iff is_json [] = (λ e. inl refl, λ h. refl)
check_metadata_iff is_json (c ∷ m) = (λ e. inr (ground arith), λ h. ground arith)

period_iff :
    (q : Period) → ((is_set q && not (is_valid_period q)) ≡ false) ↔ ((s : Text) → q ≢ other s)
period_iff unset = (λ e s h. cc, λ h. refl)
period_iff monthly = (λ e s h. cc, λ h. refl)
period_iff total = (λ e s h. cc, λ h. refl)
period_iff (other s) = (λ e t h. cc, λ h. absurd (h s refl))

-- A device passes Peer.Validate, for any test of JSON, exactly when its name is not blank, at most
-- 64 code points and free of control characters, its limits are in range, its period is monthly,
-- total or left out, its external ID is at most 255 bytes and printable, and its metadata is empty
-- or at most 4096 bytes of JSON that starts with a brace.
pub validate_peer_iff :
    (is_json : Text → Bool) (p : Peer) → (validate_peer is_json p ≡ []) ↔ IsPeer is_json p
unfolding validate_peer check_external_id
validate_peer_iff is_json p = (to, from)
  where
    to : validate_peer is_json p ≡ [] → IsPeer is_json p
    to e =
        let (metadata, e5) = (flag_some-nil _ _ _).0 e in
        let (external, e4) = (flag_some-nil _ _ _).0 e5 in
        let (period, e3) = (flag-nil _ _ _ _).0 e4 in
        let (speed, e2) = (flag-nil _ _ _ _).0 e3 in
        let (limit, e1) = (flag-nil _ _ _ _).0 e2 in
        let (name, e0) = (flag_some-nil _ _ _).0 e1 in
        record {
          name = (check_name_iff p.name).0 name;
          data_limit = ground arith;
          speed_limit = ground arith;
          period = (period_iff p.limit_period).0 period;
          external_id = ground arith;
          metadata = (check_metadata_iff is_json p.metadata).0 metadata;
        }

    from : IsPeer is_json p → validate_peer is_json p ≡ []
    from h =
        let external : check_external_id p.external_id ≡ none = ground (arith, h.external_id) in
        (flag_some-nil _ _ _).1 (
          (check_metadata_iff is_json p.metadata).1 h.metadata,
          (flag_some-nil _ _ _).1 (
            external,
            (flag-nil _ _ _ _).1 (
              (period_iff p.limit_period).1 h.period,
              (flag-nil _ _ _ _).1 (
                ground (arith, h.speed_limit),
                (flag-nil _ _ _ _).1 (
                  ground (arith, h.data_limit),
                  (flag_some-nil _ _ _).1 ((check_name_iff p.name).1 h.name, refl),
                ),
              ),
            ),
          ),
        )
