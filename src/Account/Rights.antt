-- ===== src/Account/Rights.antt =====
-- Which permissions and roles give an identity which right.
use otel_opamp_control_plane.Account.{
  Subject, has, first_array, identity_permissions, identity_roles, can_manage_security,
  can_manage_email, can_edit_email, can_view_network,
}
use otel_opamp_control_plane.Js.{Value, is}
use otel_opamp_control_plane.Prelude.{
  String, ◌≡◌, refl, ◌↔◌, ◌⊎◌, inl, inr, Bool, true, ◌||◌, Option, none, some, List, [], ◌∷◌, arith,
  any, same_iff,
}

pub data Right : Type 0 where
  manage_security manage_email edit_email view_network : Right

-- The test of the code for each right.
unfoldable pub may : Right → Subject → Bool
may manage_security = can_manage_security
may manage_email = can_manage_email
may edit_email = can_edit_email
may view_network = can_view_network

-- The rights that a permission gives: the star gives all.
pub data Permits : String → Right → Type 0 where
  star : (right : Right) → Permits "*" right
  auth_admin : Permits "auth.admin" manage_security
  email_view : Permits "settings.email.view" manage_email
  email_edit : Permits "settings.email.edit" edit_email
  email_edit_manages : Permits "settings.email.edit" manage_email
  agents_view : Permits "agents.view" view_network

-- The rights that a role gives by itself.
pub data Entitles : String → Right → Type 0 where
  admin : Entitles "admin" manage_security
  security_admin : Entitles "security-admin" manage_security

-- A text of the list that is spelled in lower case, or of the other one where that is missing.
abbrev pub Holds : (lower upper : Option (List Value)) → String → Type 0
Holds (some xs) upper t = has xs t ≡ true
Holds none (some ys) t = has ys t ≡ true
Holds none none t = ⊥

-- The permissions and roles that give an identity a right.
abbrev pub IsEntitled : Right → Subject → Type 0
IsEntitled right a =
    ((p : String) × Permits p right × Holds a.permissions a.permissions_upper p)
    ⊎ ((r : String) × Entitles r right × Holds a.roles a.roles_upper r)

Holds-iff :
    (lower upper : Option (List Value)) (t : String)
    → (has (first_array lower upper []) t ≡ true) ↔ Holds lower upper t
Holds-iff (some xs) upper t = same_iff
Holds-iff none (some ys) t = same_iff
Holds-iff none none t = (λ h. cc, λ h. elim h [ ])

has_permission_iff :
    (a : Subject) (t : String)
    → (has (identity_permissions a) t ≡ true) ↔ Holds a.permissions a.permissions_upper t
unfolding identity_permissions
has_permission_iff a t = Holds-iff a.permissions a.permissions_upper t

has_role_iff :
    (a : Subject) (t : String) → (has (identity_roles a) t ≡ true) ↔ Holds a.roles a.roles_upper t
unfolding identity_roles
has_role_iff a t = Holds-iff a.roles a.roles_upper t

any_or : (f g : Value → Bool) (xs : List Value) → any (λ x. f x || g x) xs ≡ (any f xs || any g xs)
any_or f g [] = refl
any_or f g (x ∷ xs) = ground (arith, any_or f g xs)

two : (a b : Bool) → ((a || b) ≡ true) ↔ ((a ≡ true) ⊎ (b ≡ true))
two a b = ground arith

three : (a b c : Bool) → ((a || (b || c)) ≡ true) ↔ ((a ≡ true) ⊎ ((b ≡ true) ⊎ (c ≡ true)))
three a b c = ground arith

module _ (a : Subject) where
  by_permission :
      (right : Right) (p : String)
      → Permits p right
      → has (identity_permissions a) p ≡ true
      → IsEntitled right a
  by_permission right p permits h = inl (p, permits, (has_permission_iff a p).0 h)

  -- A permission that gives the right, and is held, passes the test.
  permitted :
      (right : Right) (p : String)
      → Permits p right
      → has (identity_permissions a) p ≡ true
      → may right a ≡ true
  unfolding may can_manage_security can_manage_email can_edit_email can_view_network
  permitted manage_security _ (star _) h = rw h refl
  permitted manage_email _ (star _) h = rw h refl
  permitted edit_email _ (star _) h = rw h refl
  permitted view_network _ (star _) h = rw h refl
  permitted manage_security _ auth_admin h = ground (arith, h)
  permitted manage_email _ email_view h = ground (arith, h)
  permitted edit_email _ email_edit h = ground (arith, h)
  permitted manage_email _ email_edit_manages h = ground (arith, h)
  permitted view_network _ agents_view h = ground (arith, h)

  security_by_role :
      any (λ role. is role "admin" || is role "security-admin") (identity_roles a)
      ≡ (has (identity_roles a) "admin" || has (identity_roles a) "security-admin")
  security_by_role =
      any_or (λ role. is role "admin") (λ role. is role "security-admin") (identity_roles a)

  -- A role that gives the right, and is held, passes the test.
  entitled :
      (right : Right) (r : String)
      → Entitles r right
      → has (identity_roles a) r ≡ true
      → may right a ≡ true
  unfolding may can_manage_security
  entitled manage_security _ admin h = ground (arith, h, security_by_role)
  entitled manage_security _ security_admin h = ground (arith, h, security_by_role)
  entitled manage_email r entitles h = elim entitles [ ]
  entitled edit_email r entitles h = elim entitles [ ]
  entitled view_network r entitles h = elim entitles [ ]

  by_role :
      (right : Right) (r : String)
      → Entitles r right
      → has (identity_roles a) r ≡ true
      → IsEntitled right a
  by_role right r entitles h = inr (r, entitles, (has_role_iff a r).0 h)

  -- What passes the test has a permission or a role that gives the right.
  test_reads : (right : Right) → may right a ≡ true → IsEntitled right a
  unfolding may can_manage_security can_manage_email can_edit_email can_view_network
  test_reads manage_security h = elim ((three _ _ _).0 h) [
    | inl all_rights ↦ by_permission manage_security "*" (star manage_security) all_rights
    | inr (inl auth) ↦ by_permission manage_security "auth.admin" auth_admin auth
    | inr (inr role) ↦ elim ((two _ _).0 (rw security_by_role at role)) [
      | inl plain ↦ by_role manage_security "admin" admin plain
      | inr security ↦ by_role manage_security "security-admin" security_admin security
    ]
  ]
  test_reads manage_email h = elim ((three _ _ _).0 h) [
    | inl all_rights ↦ by_permission manage_email "*" (star manage_email) all_rights
    | inr (inl view) ↦ by_permission manage_email "settings.email.view" email_view view
    | inr (inr edit) ↦ by_permission manage_email "settings.email.edit" email_edit_manages edit
  ]
  test_reads edit_email h = elim ((two _ _).0 h) [
    | inl all_rights ↦ by_permission edit_email "*" (star edit_email) all_rights
    | inr edit ↦ by_permission edit_email "settings.email.edit" email_edit edit
  ]
  test_reads view_network h = elim ((two _ _).0 h) [
    | inl all_rights ↦ by_permission view_network "*" (star view_network) all_rights
    | inr view ↦ by_permission view_network "agents.view" agents_view view
  ]

-- An identity has a right exactly if it holds a permission or a role that gives it: `*` gives all,
-- `auth.admin` and the roles `admin` and `security-admin` the security settings, `settings.email.edit`
-- the delivery settings and their editing, `settings.email.view` the former alone, and `agents.view`
-- the network. Of the two spellings of a list the one in lower case counts where it is there.
pub may_iff : (right : Right) (a : Subject) → (may right a ≡ true) ↔ IsEntitled right a
may_iff right a = (
  test_reads a right,
  λ h. elim h [
    | inl (p, permits, held) ↦ permitted a right p permits ((has_permission_iff a p).1 held)
    | inr (r, entitles, held) ↦ entitled a right r entitles ((has_role_iff a r).1 held)
  ],
)
