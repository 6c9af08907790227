-- ===== src/Auth/Roles.antt =====
-- Who has which permission.
use certos.Base.{
  ℕ, true, false, List, [], ◌∷◌, Option, none, some, ◌≡◌, ◌↔◌, ◌⊎◌, inl, inr, refl, sym, ap, ◌∙◌,
  Text, txt, find, text_beq, nat_beq, Memᴰ, Option-cases, Bool-cases, some_inj, if◌then◌else◌, ◌==◌,
  text_eq, nat_beq_iff,
}
use certos.Auth.{
  Permission, permission_number, RbacManager, init_default_roles, holds, has_permission,
  get_permissions, permission_name, job_submit, job_view_own, job_view_all, job_cancel_own,
  job_cancel_all, job_set_priority, node_view, node_drain, node_manage, user_view, user_create,
  user_delete, cluster_view, cluster_manage, node_register, node_heartbeat, node_report,
}

abbrev all_permissions : List Permission
all_permissions =
    job_submit ∷ job_view_own ∷ job_view_all ∷ job_cancel_own ∷ job_cancel_all ∷ job_set_priority
    ∷ node_view ∷ node_drain ∷ node_manage ∷ user_view ∷ user_create ∷ user_delete ∷ cluster_view
    ∷ cluster_manage ∷ node_register ∷ node_heartbeat ∷ node_report ∷ []

named : Text → List Permission → Option Permission
named t [] = none
named t (p ∷ ps) = let rest = named t ps in if permission_name p == t then some p else rest

-- Reading a name back.
named-permission_name : (p : Permission) → named (permission_name p) all_permissions ≡ some p
unfolding named text_beq
named-permission_name job_submit = refl
named-permission_name job_view_own = refl
named-permission_name job_view_all = refl
named-permission_name job_cancel_own = refl
named-permission_name job_cancel_all = refl
named-permission_name job_set_priority = refl
named-permission_name node_view = refl
named-permission_name node_drain = refl
named-permission_name node_manage = refl
named-permission_name user_view = refl
named-permission_name user_create = refl
named-permission_name user_delete = refl
named-permission_name cluster_view = refl
named-permission_name cluster_manage = refl
named-permission_name node_register = refl
named-permission_name node_heartbeat = refl
named-permission_name node_report = refl

numbered : ℕ → List Permission → Option Permission
numbered n [] = none
numbered n (p ∷ ps) =
    let rest = numbered n ps in if nat_beq (permission_number p) n then some p else rest

numbered-permission_number :
    (p : Permission) → numbered (permission_number p) all_permissions ≡ some p
unfolding numbered
numbered-permission_number job_submit = refl
numbered-permission_number job_view_own = refl
numbered-permission_number job_view_all = refl
numbered-permission_number job_cancel_own = refl
numbered-permission_number job_cancel_all = refl
numbered-permission_number job_set_priority = refl
numbered-permission_number node_view = refl
numbered-permission_number node_drain = refl
numbered-permission_number node_manage = refl
numbered-permission_number user_view = refl
numbered-permission_number user_create = refl
numbered-permission_number user_delete = refl
numbered-permission_number cluster_view = refl
numbered-permission_number cluster_manage = refl
numbered-permission_number node_register = refl
numbered-permission_number node_heartbeat = refl
numbered-permission_number node_report = refl

number_injective : (p q : Permission) → permission_number p ≡ permission_number q → p ≡ q
number_injective p q e = some_inj (
    sym (numbered-permission_number p)
    ∙ ap (λ n. numbered n all_permissions) e
    ∙ numbered-permission_number q)

-- No two permissions have the same name.
pub permission_name_injective : (p q : Permission) → permission_name p ≡ permission_name q → p ≡ q
permission_name_injective p q e =
    some_inj (
      sym (named-permission_name p) ∙ ap (λ t. named t all_permissions) e ∙ named-permission_name q)

holds-Mem : (p : Permission) (ps : List Permission) → holds p ps ≡ true → Memᴰ p ps
unfolding holds
holds-Mem p [] h = cc
holds-Mem p (q ∷ ps) h = elim (Bool-cases (nat_beq (permission_number q) (permission_number p))) [
  | inl e ↦
      let same = (nat_beq_iff (permission_number q) (permission_number p)).0 e in
      Memᴰ.head (number_injective p q (sym same))
  | inr e ↦ Memᴰ.tail (holds-Mem p ps (rw e at h))
]

Mem-holds : (p : Permission) (ps : List Permission) → Memᴰ p ps → holds p ps ≡ true
unfolding holds
Mem-holds p [] m = elim m [ ]
Mem-holds p (q ∷ ps) (Memᴰ.head e) =
    let same =
      (nat_beq_iff (permission_number q) (permission_number p)).1 (ap permission_number (sym e)) in
    rw same refl
Mem-holds p (q ∷ ps) (Memᴰ.tail m) =
    elim (Bool-cases (nat_beq (permission_number q) (permission_number p))) [
      | inl e ↦ rw e refl
      | inr e ↦ rw e (Mem-holds p ps m)
    ]

-- `has_permission` holds exactly of what `get_permissions` lists, for every role, known or not.
pub mem-get_permissions :
    (role : Text) (p : Permission) (roles : RbacManager)
    → (has_permission role p roles ≡ true) ↔ Memᴰ p (get_permissions role roles)
unfolding has_permission get_permissions
mem-get_permissions role p roles = elim (Option-cases (find role roles)) [
  | inl e ↦ rw (e, has_permission, get_permissions) ((λ h. cc), λ m. elim m [ ])
  | inr (ps, e) ↦ rw (e, has_permission, get_permissions) (holds-Mem p ps, Mem-holds p ps)
]

-- With the default roles, an administrator may do what a user may; what a node may do nobody else
-- may; and each permission is some role's.
pub default_roles :
    (p : Permission)
    → (has_permission (txt "user") p init_default_roles ≡ true
        → has_permission (txt "admin") p init_default_roles ≡ true)
      × (has_permission (txt "node") p init_default_roles ≡ true
          → (has_permission (txt "admin") p init_default_roles ≡ false)
            × (has_permission (txt "user") p init_default_roles ≡ false))
      × ((has_permission (txt "admin") p init_default_roles ≡ true)
          ⊎ (has_permission (txt "node") p init_default_roles ≡ true))
unfolding has_permission find text_beq
default_roles job_submit = ((λ h. refl), (λ h. cc), inl refl)
default_roles job_view_own = ((λ h. refl), (λ h. cc), inl refl)
default_roles job_view_all = ((λ h. refl), (λ h. cc), inl refl)
default_roles job_cancel_own = ((λ h. refl), (λ h. cc), inl refl)
default_roles job_cancel_all = ((λ h. refl), (λ h. cc), inl refl)
default_roles job_set_priority = ((λ h. refl), (λ h. cc), inl refl)
default_roles node_view = ((λ h. refl), (λ h. cc), inl refl)
default_roles node_drain = ((λ h. refl), (λ h. cc), inl refl)
default_roles node_manage = ((λ h. refl), (λ h. cc), inl refl)
default_roles user_view = ((λ h. refl), (λ h. cc), inl refl)
default_roles user_create = ((λ h. refl), (λ h. cc), inl refl)
default_roles user_delete = ((λ h. refl), (λ h. cc), inl refl)
default_roles cluster_view = ((λ h. refl), (λ h. cc), inl refl)
default_roles cluster_manage = ((λ h. refl), (λ h. cc), inl refl)
default_roles node_register = ((λ h. cc), (λ h. (refl, refl)), inr refl)
default_roles node_heartbeat = ((λ h. cc), (λ h. (refl, refl)), inr refl)
default_roles node_report = ((λ h. cc), (λ h. (refl, refl)), inr refl)
