-- ===== src/ApiKeys/Permission.antt =====
-- `_check_permission` of app/services/api_key.py. The query for a row of the permissions of a key is a
-- parameter, which answers from a fixed content whether the row is there and allows.
use fastapi_hyperf.Common.{
  ℕ, String, Bool, true, false, Option, none, some, ◌≡◌, refl, arith, ◌==◌, ◌⊎◌, inl, inr,
  if◌then◌else◌, Option-cases, subst,
}

pub data Resource : Type 0 where
  conversations credits ai_usage user_profile analytics admin billing api_keys wildcard : Resource

pub data Action : Type 0 where
  read write delete create update list admin wildcard : Action

-- KeyPermissionResource(text), `none` where it raises
unfoldable pub resource_of : String → Option Resource
resource_of text =
    if text == "conversations"
    then some conversations
    else if text == "credits"
    then some credits
    else if text == "ai_usage"
    then some ai_usage
    else if text == "user_profile"
    then some user_profile
    else if text == "analytics"
    then some analytics
    else if text == "admin"
    then some Resource.admin
    else if text == "billing"
    then some billing
    else if text == "api_keys"
    then some api_keys
    else if text == "*"
    then some Resource.wildcard
    else none

-- KeyPermissionAction(text)
unfoldable pub action_of : String → Option Action
action_of text =
    if text == "read"
    then some read
    else if text == "write"
    then some write
    else if text == "delete"
    then some delete
    else if text == "create"
    then some create
    else if text == "update"
    then some update
    else if text == "list"
    then some list
    else if text == "admin"
    then some Action.admin
    else if text == "*"
    then some Action.wildcard
    else none

module _ (find : ℕ → Resource → Action → Option Bool) (key : ℕ) where
  unfoldable pub specific : Option Resource → Option Action → Option Bool
  specific (some r) (some a) = find key r a
  specific (some r) none = none
  specific none a = none

  -- if not permission and action_enum
  unfoldable pub any_resource : Option Bool → Option Action → Option Bool
  any_resource none (some a) = find key Resource.wildcard a
  any_resource none none = none
  any_resource (some found) a = some found

  -- if not permission and resource_enum
  unfoldable pub any_action : Option Bool → Option Resource → Option Bool
  any_action none (some r) = find key r Action.wildcard
  any_action none none = none
  any_action (some found) r = some found

  -- the last query, and permission["is_allowed"] if permission else False
  unfoldable pub anything : Option Bool → Bool
  anything (some found) = found
  anything none = elim (find key Resource.wildcard Action.wildcard) [
    | some found ↦ found
    | none ↦ false
  ]

  unfoldable pub check_permission : String → String → Bool
  check_permission resource action = anything (
      any_action
        (any_resource (specific (resource_of resource) (action_of action)) (action_of action))
        (resource_of resource))

  abbrev CoversResource : Resource → String → Type 0
  CoversResource r resource = (r ≡ Resource.wildcard) ⊎ (resource_of resource ≡ some r)

  abbrev CoversAction : Action → String → Type 0
  CoversAction a action = (a ≡ Action.wildcard) ⊎ (action_of action ≡ some a)

  -- A row that allows, for a resource and an action that cover the ones that are asked for.
  pub record Allows (resource action : String) : Type 0 where
    pub by_resource : Resource
    pub by_action : Action
    pub allowed : find key by_resource by_action ≡ some true
    pub covers_resource : CoversResource by_resource resource
    pub covers_action : CoversAction by_action action

  last : (resource action : String) → anything none ≡ true → Allows resource action
  unfolding anything
  last resource action h = record {
    by_resource = Resource.wildcard;
    by_action = Action.wildcard;
    allowed = ground (arith, h);
    covers_resource = inl refl;
    covers_action = inl refl;
  }

  of_resource :
      (resource action : String) (r : Resource)
      → resource_of resource ≡ some r
      → anything (find key r Action.wildcard) ≡ true
      → Allows resource action
  unfolding anything
  of_resource resource action r er h = elim (Option-cases (find key r Action.wildcard)) [
    | inl e ↦ last resource action (subst (λ found. anything found ≡ true) e h)
    | inr (found, e) ↦ record {
      by_resource = r;
      by_action = Action.wildcard;
      allowed = ground (arith, e, h);
      covers_resource = inr er;
      covers_action = inl refl;
    }
  ]

  of_action :
      (resource action : String) (a : Action) (r : Option Resource)
      → action_of action ≡ some a
      → resource_of resource ≡ r
      → anything (any_action (find key Resource.wildcard a) r) ≡ true
      → Allows resource action
  unfolding anything any_action
  of_action resource action a r ea er h = elim (Option-cases (find key Resource.wildcard a)) [
    | inl e ↦ unnamed r er (subst (λ found. anything (any_action found r) ≡ true) e h)
    | inr (found, e) ↦ record {
      by_resource = Resource.wildcard;
      by_action = a;
      allowed = ground (arith, e, h);
      covers_resource = inl refl;
      covers_action = inr ea;
    }
  ]
    where
      unnamed :
          (r : Option Resource)
          → resource_of resource ≡ r
          → anything (any_action none r) ≡ true
          → Allows resource action
      unnamed none er h = last resource action h
      unnamed (some r) er h = of_resource resource action r er h

  decided :
      (resource action : String) (r : Option Resource) (a : Option Action)
      → resource_of resource ≡ r
      → action_of action ≡ a
      → anything (any_action (any_resource (specific r a) a) r) ≡ true
      → Allows resource action
  unfolding anything any_action any_resource specific
  decided resource action none none er ea h = last resource action h
  decided resource action none (some a) er ea h = of_action resource action a none ea er h
  decided resource action (some r) none er ea h = of_resource resource action r er h
  decided resource action (some r) (some a) er ea h = elim (Option-cases (find key r a)) [
    | inl e ↦
        of_action resource action a (some r) ea er
          (subst (λ found. anything (any_action (any_resource found (some a)) (some r)) ≡ true) e h)
    | inr (found, e) ↦ record {
      by_resource = r;
      by_action = a;
      allowed = ground (arith, e, h);
      covers_resource = inr er;
      covers_action = inr ea;
    }
  ]

  -- A key that has a permission has it by a row that allows it, for the resource or all of them and for
  -- the action or all of them.
  pub check_permission-Allows :
      (resource action : String) → check_permission resource action ≡ true → Allows resource action
  unfolding check_permission
  check_permission-Allows resource action h = decided resource action _ _ refl refl h

  -- A row for exactly the resource and the action decides alone, whatever the rows with wildcards say.
  check_permission-find :
      (resource action : String) (r : Resource) (a : Action) (found : Bool)
      → resource_of resource ≡ some r
      → action_of action ≡ some a
      → find key r a ≡ some found
      → check_permission resource action ≡ found
  unfolding check_permission anything any_action any_resource specific
  check_permission-find resource action r a found er ea h = rw (er, ea, h) refl
