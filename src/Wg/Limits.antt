-- ===== src/Wg/Limits.antt =====
-- internal/wg/limits.go: why a device is kept off its tunnel, and its status. Traffic is in int64.
pub mod Laws
use tunploy.Common.{
  ℕ, zero, suc, ◌+◌, ◌-◌, ◌*◌, ◌/◌, ◌%◌, ◌^◌, ◌≤◌, ◌<◌, ◌≡◌, refl, sym, ap, ap₂, subst, ◌∙◌, ◌≢◌,
  ◌↔◌, ◌⊎◌, inl, inr, Bool, true, false, not, ◌&&◌, ◌||◌, Option, none, some, List, [], ◌∷◌, ◌++◌,
  map, append_assoc, append-nil, arith, ltb, leb, ◌==◌, if◌then◌else◌, ltb→lt, lt→ltb, leb→le,
  le→leb, ==_iff, ==_refl, tests, and_true, Bool-cases, Option-cases, is_some, length,
  length-append, replicate, is_empty, find, any, all, select, update_where, All, All-append,
  All-select, All-find, All-update_where, All-mono, mem, mem-append, eq_text, eq_text_refl,
  eq_text_sound, get_or, set, length-set, get_or-set_self,
}
use tunploy.Common.Int.{
  ℤ, pos, negsuc, pos_part, neg_part, sub_ℕ, ◌+ℤ◌, ◌-ℤ◌, ◌≤ℤ◌, ◌<ℤ◌, ltz, lez, eqz, from_bits64,
  wrap64, add64, sub64, wrap64_pos, add64_pos, sub64_pos, eqz→eq, eqz_refl,
}
use tunploy.Wg.Model.{Peer}

pub record Traffic : Type 0 where
  pub rx : ℤ
  pub tx : ℤ

-- Traffic.Total
abbrev pub traffic_total : Traffic → ℤ
traffic_total t = add64 t.rx t.tx

pub data Block : Type 0 where
  -- ""
  unblocked : Block
  block_expired block_limit : Block

abbrev pub is_blocked : Block → Bool
is_blocked unblocked = false
is_blocked block_expired = true
is_blocked block_limit = true

-- `p.ExpiresAt != nil && !now.Before(*p.ExpiresAt)`
abbrev pub has_expired : Option ℕ → ℕ → Bool
has_expired none now = false
has_expired (some at) now = leb at now

unfoldable pub blocked : Peer → Traffic → ℕ → Block
blocked p used now =
    if not p.enabled
    then unblocked
    else (if has_expired p.expires_at now
        then block_expired
        else (if ltz (pos 0) p.data_limit && lez p.data_limit (traffic_total used)
            then block_limit
            else unblocked))

pub data Status : Type 0 where
  active disabled expired limit_reached : Status

abbrev pub status_of_block : Block → Status
status_of_block block_expired = expired
status_of_block block_limit = limit_reached
status_of_block unblocked = active

unfoldable pub status : Peer → Traffic → ℕ → Status
unfolding blocked
status p used now = if not p.enabled then disabled else status_of_block (blocked p used now)
