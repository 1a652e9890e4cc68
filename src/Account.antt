-- ===== src/Account.antt =====
-- ui/src/account-settings.js: who may do what, and the forms of the profile, the password, the users
-- and the e-mail delivery. An identity, a profile and a user are objects with scalar fields, that may
-- be spelled in two ways, and with arrays of roles and permissions.
pub mod Forms
pub mod Rights
pub mod Email
use otel_opamp_control_plane.Js.{
  Value, Num, nan, whole, undefined, null, str, num, bool, to_string, nullish, is, is_true,
  is_false, to_number,
}
use otel_opamp_control_plane.Deployment.{Fields, field}
use otel_opamp_control_plane.Prelude.{
  ℕ, zero, suc, ◌+◌, ◌-◌, ◌*◌, ◌/◌, ◌%◌, ◌≤◌, ◌<◌, Char, code, String, ◌≡◌, refl, sym, ap, ◌∙◌,
  subst, ◌≢◌, ◌↔◌, ◌⊎◌, inl, inr, Bool, true, false, not, ◌&&◌, ◌||◌, Option, none, some, List, [],
  ◌∷◌, ◌++◌, map, reverse, foldl, arith, ◌==◌, starts_with, eq_iff, eq_refl, ltb, leb, eqb,
  is_empty, empty_lem, if◌then◌else◌, Bool-cases, Option-cases, leb→le, ltb→lt, tests, length,
  get_elem?, concat_map, any, all, filter, count, length-filter, All, All-filter, All-append,
  count-le, All-of_count_eq, count_congr, All-intro, All-map, All-zip, count-eq-length_iff,
  count-le-length,
}

pub record Subject : Type 0 where
  pub fields : Fields
  pub permissions : Option (List Value)
  pub permissions_upper : Option (List Value)
  pub roles : Option (List Value)
  pub roles_upper : Option (List Value)

-- `stringValue(v)`
unfoldable pub text_value : Value → String
unfolding to_string
text_value undefined = ""
text_value null = ""
text_value v = to_string v

-- The first field that is neither missing nor `null`.
unfoldable pub first_value : Fields → List String → Value → Value
first_value source [] default = default
first_value source (key ∷ keys) default =
    nullish (field source key) (first_value source keys default)

-- The same where the fields are arrays.
abbrev pub first_array : Option (List Value) → Option (List Value) → List Value → List Value
first_array (some xs) other default = xs
first_array none (some ys) default = ys
first_array none none default = default

unfoldable pub identity_permissions : Subject → List Value
identity_permissions identity = first_array identity.permissions identity.permissions_upper []

unfoldable pub identity_roles : Subject → List Value
identity_roles identity = first_array identity.roles identity.roles_upper []

-- `values.includes("text")`
abbrev pub has : List Value → String → Bool
has values text = any (λ v. is v text) values

unfoldable pub can_manage_security : Subject → Bool
can_manage_security identity =
    has (identity_permissions identity) "*"
    || (has (identity_permissions identity) "auth.admin"
        || any (λ role. is role "admin" || is role "security-admin") (identity_roles identity))

unfoldable pub can_manage_email : Subject → Bool
can_manage_email identity =
    has (identity_permissions identity) "*"
    || (has (identity_permissions identity) "settings.email.view"
        || has (identity_permissions identity) "settings.email.edit")

unfoldable pub can_edit_email : Subject → Bool
can_edit_email identity =
    has (identity_permissions identity) "*"
    || has (identity_permissions identity) "settings.email.edit"

-- ui/src/network-settings.js
unfoldable pub can_view_network : Subject → Bool
can_view_network identity =
    has (identity_permissions identity) "*" || has (identity_permissions identity) "agents.view"

pub record Profile : Type 0 where
  pub username : String
  pub first_name : String
  pub last_name : String
  pub email : String
  pub provider : String
  pub roles : List Value
  pub permissions : List Value

unfoldable pub normalize_profile : (profile identity : Subject) → Profile
normalize_profile profile identity =
    let own = profile.fields in
    let other = identity.fields in
    record {
      username = text_value (
          first_value own ("username" ∷ "Username" ∷ [])
            (first_value other ("username" ∷ "Username" ∷ []) (str "")));
      first_name = text_value (first_value own ("firstName" ∷ "FirstName" ∷ []) (str ""));
      last_name = text_value (first_value own ("lastName" ∷ "LastName" ∷ []) (str ""));
      email = text_value (first_value own ("email" ∷ "Email" ∷ []) (str ""));
      provider = text_value (
          first_value own ("provider" ∷ "Provider" ∷ [])
            (first_value other ("provider" ∷ "Provider" ∷ []) (str "local")));
      roles = first_array profile.roles profile.roles_upper (identity_roles identity);
      permissions =
          first_array profile.permissions profile.permissions_upper (identity_permissions identity);
    }

pub record User : Type 0 where
  pub username : String
  pub first_name : String
  pub last_name : String
  pub email : String
  pub roles : List Value
  pub active : Bool
  pub root : Bool
  pub created_at : Value
  pub updated_at : Value
  pub revision : ℕ

-- `Number(v) || 0`
abbrev pub number_or_zero : Num → ℕ
number_or_zero nan = 0
number_or_zero (whole n) = n

unfoldable pub normalize_user : Subject → User
normalize_user user =
    let own = user.fields in
    record {
      username = text_value (first_value own ("username" ∷ "Username" ∷ []) (str ""));
      first_name = text_value (first_value own ("firstName" ∷ "FirstName" ∷ []) (str ""));
      last_name = text_value (first_value own ("lastName" ∷ "LastName" ∷ []) (str ""));
      email = text_value (first_value own ("email" ∷ "Email" ∷ []) (str ""));
      roles = first_array user.roles user.roles_upper [];
      active = not (is_false (first_value own ("active" ∷ "Active" ∷ []) (bool true)));
      root = is_true (first_value own ("root" ∷ "Root" ∷ []) (bool false));
      created_at = first_value own ("createdAt" ∷ "CreatedAt" ∷ []) (str "");
      updated_at = first_value own ("updatedAt" ∷ "UpdatedAt" ∷ []) (str "");
      revision =
          number_or_zero
            (to_number (first_value own ("revision" ∷ "Revision" ∷ []) (num (whole 0))));
    }
