-- ===== src/Provisioning/Completes.antt =====
-- When a run completes.
use civitas.Prelude.{◌≡◌, Option, some, List, String}
use civitas.Provisioning.{
  Role, ResolvedUser, Contact, ProvisioningInput, get_user_id, returned, Deps,
}
use civitas.Provisioning.Run.{Run}
use civitas.Provisioning.Total.{Total}

module _ {W : Type 0} (deps : Deps W) where
  -- Every call of Logto returns: the listing these roles, and the resolution a user with an
  -- identifier.
  pub record AllReturn (roles : List Role) : Type 0 where
    pub lists : (w : W) → (v : W) × (deps.list_organization_roles w ≡ returned roles v)
    pub validates : (names : List String) → Total (deps.ensure_organization_template names)
    pub creates : (input : ProvisioningInput) → Total (deps.create_organization input)
    pub replaces_domains :
        (id : Option String) (domains : List String) → Total (deps.replace_email_domains id domains)
    pub replaces_roles :
        (id : Option String) (ids : List String) → Total (deps.replace_default_roles id ids)
    pub resolves :
        (contact : Contact) (w : W)
        → (resolved : ResolvedUser) × (user_id : String) × (v : W) × (deps.create_or_resolve_user
              contact w
            ≡ returned resolved v)
          × (get_user_id resolved.user ≡ some user_id)
    pub adds_user :
        (id : Option String) (user : String) → Total (deps.add_user_to_organization id user)
    pub assigns :
        (id : Option String) (user role : String) (name : Option String)
        → Total (deps.assign_organization_role id user role name)
