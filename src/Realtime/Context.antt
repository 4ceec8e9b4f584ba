-- ===== src/Realtime/Context.antt =====
-- crates/db/src/rls/context.rs: who a request is, for the database's policies.
use lazypock.Base.{Bool, true, false, ◌&&◌, ◌≡◌, arith, []}
use lazypock.Base.Text.{Text, codes, text_eq, text_eq_iff, text_eq_refl}

pub data Role : Type 0 where
  owner anon authenticated : Role

pub data Action : Type 0 where
  list view update delete write : Action

pub record RequestContext : Type 0 where
  pub role : Role
  pub action : Action
  pub auth_id : Text
  pub auth_email : Text
  pub auth_collection_id : Text
  pub auth_collection_name : Text
  pub auth_claims : Text
  pub connection_id : Text

-- The empty JSON object.
abbrev pub empty_claims : Text
empty_claims = codes "{}"

unfoldable pub anonymous : RequestContext
anonymous = record {
  role = Role.anon;
  action = Action.write;
  auth_id = [];
  auth_email = [];
  auth_collection_id = [];
  auth_collection_name = [];
  auth_claims = empty_claims;
  connection_id = [];
}

-- `RequestContext::owner`.
unfoldable pub superuser : RequestContext
unfolding anonymous
superuser = record anonymous { role = Role.owner }

abbrev role_eq : Role → Role → Bool
role_eq Role.owner Role.owner = true
role_eq Role.anon Role.anon = true
role_eq Role.authenticated Role.authenticated = true
role_eq _ _ = false

abbrev action_eq : Action → Action → Bool
action_eq Action.list Action.list = true
action_eq Action.view Action.view = true
action_eq Action.update Action.update = true
action_eq Action.delete Action.delete = true
action_eq Action.write Action.write = true
action_eq _ _ = false

role_eq→eq : (a b : Role) → role_eq a b ≡ true → a ≡ b
role_eq→eq a b h = ground arith

action_eq→eq : (a b : Action) → action_eq a b ≡ true → a ≡ b
action_eq→eq a b h = ground arith

-- The derived `==` of contexts.
unfoldable pub context_eq : RequestContext → RequestContext → Bool
context_eq a b =
    role_eq a.role b.role
    && (action_eq a.action b.action
        && (text_eq a.auth_id b.auth_id
            && (text_eq a.auth_email b.auth_email
                && (text_eq a.auth_collection_id b.auth_collection_id
                    && (text_eq a.auth_collection_name b.auth_collection_name
                        && (text_eq a.auth_claims b.auth_claims
                            && text_eq a.connection_id b.connection_id))))))

pub context_eq→eq : (a b : RequestContext) → context_eq a b ≡ true → a ≡ b
unfolding context_eq
context_eq→eq a b h = ground (
  arith,
  role_eq→eq a.role b.role,
  action_eq→eq a.action b.action,
  text_eq_iff a.auth_id b.auth_id,
  text_eq_iff a.auth_email b.auth_email,
  text_eq_iff a.auth_collection_id b.auth_collection_id,
  text_eq_iff a.auth_collection_name b.auth_collection_name,
  text_eq_iff a.auth_claims b.auth_claims,
  text_eq_iff a.connection_id b.connection_id,
)

pub context_eq_refl : (a : RequestContext) → context_eq a a ≡ true
unfolding context_eq
context_eq_refl a =
    rw
      (
        text_eq_refl a.auth_id,
        text_eq_refl a.auth_email,
        text_eq_refl a.auth_collection_id,
        text_eq_refl a.auth_collection_name,
        text_eq_refl a.auth_claims,
        text_eq_refl a.connection_id,
      )
      (tags a.role a.action)
  where
    tags : (r : Role) (x : Action) → (role_eq r r && (action_eq x x && true)) ≡ true
    tags r x = ground arith
