-- ===== src/Store/Users.antt =====
-- internal/store/users.go: the table of users, and the steps of their one-time codes.
pub mod Steps
use tunploy.Common.{
  ℕ, zero, suc, ◌+◌, ◌-◌, ◌*◌, ◌/◌, ◌%◌, ◌^◌, ◌≤◌, ◌<◌, ◌≡◌, refl, sym, ap, ap₂, subst, ◌∙◌, ◌≢◌,
  ◌↔◌, ◌⊎◌, inl, inr, Bool, true, false, not, ◌&&◌, ◌||◌, Option, none, some, List, [], ◌∷◌, ◌++◌,
  map, append_assoc, append-nil, arith, ltb, leb, ◌==◌, if◌then◌else◌, ltb→lt, lt→ltb, leb→le,
  le→leb, ==_iff, ==_refl, tests, and_true, Bool-cases, Option-cases, is_some, length,
  length-append, replicate, is_empty, find, any, all, select, update_where, All, All-append,
  All-select, All-find, All-update_where, All-mono, mem, mem-append, eq_text, eq_text_refl,
  eq_text_sound, get_or, set, length-set, get_or-set_self,
}
use tunploy.Common.Text.{Text, trim_space}
use tunploy.Apperr.{Result, ok, err, ◌>>=◌, duplicate, missing}
use tunploy.Store.Tables.{to_second}
use tunploy.Store.Peers.{or_missing}

pub record User : Type 0 where
  pub id : ℕ
  pub name : Text
  pub email : Text
  pub password_hash : Text
  pub totp_secret : Text
  pub totp_last_step : ℕ
  pub created_at : ℕ
  pub updated_at : ℕ

-- The table and its AUTOINCREMENT sequence.
pub record Users : Type 0 where
  pub users : List User
  pub next_user : ℕ

-- NormalizeEmail; strings.ToLower is a parameter.
abbrev normalize_email : (Text → Text) → Text → Text
normalize_email to_lower email = to_lower (trim_space email)

abbrev pub user_by_id : Users → ℕ → Result User
user_by_id t id = or_missing (find (λ (u : User). u.id == id) t.users)

abbrev user_by_email : (Text → Text) → Users → Text → Result User
user_by_email to_lower t email =
    or_missing (find (λ (u : User). eq_text u.email (normalize_email to_lower email)) t.users)

-- CountUsers
abbrev count_users : Users → ℕ
count_users t = length t.users

-- userFromInsert
abbrev pub new_user : ℕ → Text → Text → Text → ℕ → User
new_user id name email hash now = record {
  id = id;
  name = name;
  email = email;
  password_hash = hash;
  totp_secret = [];
  totp_last_step = 0;
  created_at = to_second now;
  updated_at = to_second now;
}

abbrev insert_user : Users → User → Result (User × Users)
insert_user t u = ok (u, record { users = t.users ++ u ∷ []; next_user = suc t.next_user })

-- CreateUser
create_user : (Text → Text) → Users → Text → Text → Text → ℕ → Result (User × Users)
create_user to_lower t name email hash now =
    let normal = normalize_email to_lower email in
    if any (λ (u : User). eq_text u.email normal) t.users
    then err (duplicate "")
    else insert_user t (new_user t.next_user name normal hash now)

-- CreateFirstUser
create_first_user : (Text → Text) → Users → Text → Text → Text → ℕ → Result (User × Users)
create_first_user to_lower t name email hash now =
    if is_empty t.users
    then insert_user t (new_user t.next_user name (normalize_email to_lower email) hash now)
    else err (duplicate "")

abbrev change_users : (User → Bool) → (User → User) → Users → Users
change_users p f t = record t { users = update_where p f t.users }

-- updateUser
abbrev update_user : (User → User) → Users → ℕ → Result Users
update_user f t id = user_by_id t id >>= λ u. ok (change_users (λ (v : User). v.id == id) f t)

-- UpdateUserPassword
update_user_password : Users → ℕ → Text → ℕ → Result Users
update_user_password t id hash now =
    update_user (λ u. record u { password_hash = hash; updated_at = to_second now }) t id

-- EnableTOTP
enable_totp : Users → ℕ → Text → ℕ → ℕ → Result Users
enable_totp t id secret used_step now =
    update_user
      (λ u. record u {
        totp_secret = secret;
        totp_last_step = used_step;
        updated_at = to_second now;
      })
      t id

-- DisableTOTP
disable_totp : Users → ℕ → ℕ → Result Users
disable_totp t id now =
    update_user (λ u. record u { totp_secret = []; totp_last_step = 0; updated_at = to_second now })
      t id

abbrev pub can_claim : ℕ → ℕ → User → Bool
can_claim id step u = u.id == id && ltb u.totp_last_step step

-- ClaimTOTPStep: whether a row was changed.
pub claim_totp_step : Users → ℕ → ℕ → Bool × Users
claim_totp_step t id step = (
  any (can_claim id step) t.users,
  change_users (can_claim id step) (λ u. record u { totp_last_step = step }) t,
)
