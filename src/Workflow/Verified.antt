-- ===== src/Workflow/Verified.antt =====
-- When the identity of a project is verified, and whom node_01 lets through.
use decision_center.Base.{
  true, false, ◌||◌, Option, none, some, String, List, [], ◌∷◌, ◌++◌, str_eq, if◌then◌else◌,
  is_empty_text, is_empty, contains, ◌≡◌, refl, sym, ap, arith, All, Bool-cases, inl, inr, eq_iff,
  eq_refl,
}
use decision_center.Base.Dict.{Dict, lookup, string_key}
use decision_center.Base.Effect.{Result, done, raised, done-injective}
use decision_center.Rbac.{Role, role_permissions}
use decision_center.Workflow.{Mapping, Source, StringTools}
use decision_center.Workflow.Identity.{
  verified, partial, not_verified, ProjectIdentity, Candidate, is_verified_mapping, candidates_of,
  unique_names, consolidate, resolve_project_identity,
}
use decision_center.Workflow.Auth.{
  AuthExc, rbac_denied, Authorized, valid_role, grant, look_up, require_project, require_generate,
  authorize,
}

contains-append :
    (s : String) (xs ys : List String) → contains s (xs ++ ys) ≡ (contains s xs || contains s ys)
unfolding contains
contains-append s [] ys = refl
contains-append s (x ∷ xs) ys = ground (arith, contains-append s xs ys)

add_name-kept :
    (s name : String) (seen : List String)
    → contains s seen ≡ true
    → contains s (if contains name seen then seen else seen ++ name ∷ []) ≡ true
add_name-kept s name seen h = elim (Bool-cases (contains name seen)) [
  | inl e ↦ rw e h
  | inr e ↦ rw (e, contains-append s seen (name ∷ []), h) refl
]

last-contains : (name : String) (seen : List String) → contains name (seen ++ name ∷ []) ≡ true
unfolding contains
last-contains name [] = rw (eq_refl name) refl
last-contains name (x ∷ seen) = ground (arith, last-contains name seen)

add_name-new :
    (name : String) (seen : List String)
    → contains name (if contains name seen then seen else seen ++ name ∷ []) ≡ true
add_name-new name seen = elim (Bool-cases (contains name seen)) [
  | inl e ↦ rw (e, e) refl
  | inr e ↦ rw (e, last-contains name seen) refl
]

unique_names-kept :
    (s : String) (cs : List Candidate) (seen : List String)
    → contains s seen ≡ true
    → contains s (unique_names seen cs) ≡ true
unfolding unique_names
unique_names-kept s [] seen h = h
unique_names-kept s ((label, name) ∷ cs) seen h =
    unique_names-kept s cs (if contains name seen then seen else seen ++ name ∷ [])
      (add_name-kept s name seen h)

-- Every candidate's name is among the distinct names.
unique_names-All :
    (cs : List Candidate) (seen : List String)
    → All (λ c. contains c.1 (unique_names seen cs) ≡ true) cs
unfolding unique_names
unique_names-All [] seen = tt
unique_names-All ((label, name) ∷ cs) seen = (
  unique_names-kept name cs (if contains name seen then seen else seen ++ name ∷ [])
      (add_name-new name seen),
  unique_names-All cs (if contains name seen then seen else seen ++ name ∷ []),
)

no_match : false ≡ true → ⊥
no_match h = cc

only_name : (s name : String) → contains s (name ∷ []) ≡ true → s ≡ name
unfolding contains
only_name s name h = elim (Bool-cases (str_eq name s)) [
  | inl e ↦ sym ((eq_iff name s).0 e)
  | inr e ↦ absurd (no_match (rw e at h))
]

only_names :
    (name : String) (names : List String) (cs : List Candidate)
    → names ≡ name ∷ []
    → All (λ c. contains c.1 names ≡ true) cs
    → All (λ c. c.1 ≡ name) cs
only_names name names [] e h = tt
only_names name names (c ∷ cs) e h =
    (only_name c.1 name (rw e at h.0), only_names name names cs e h.1)

-- The candidates agree on the name of an identity.
abbrev pub Agreed : Mapping → List Candidate → ProjectIdentity → Type 0
Agreed m cs identity =
    (is_verified_mapping m ≡ true)
    × (is_empty cs ≡ false)
    × All (λ c. c.1 ≡ identity.project_name) cs

some_candidate :
    (name : String) (cs : List Candidate) → name ∷ [] ≡ unique_names [] cs → is_empty cs ≡ false
unfolding unique_names
some_candidate name [] e = cc
some_candidate name (c ∷ cs) e = refl

not_unverified : not_verified ≡ verified → ⊥
not_unverified h = cc

not_partial : partial ≡ verified → ⊥
not_partial h = cc

consolidate-Agreed :
    (code : String) (m : Mapping) (cs : List Candidate) (names : List String)
    → names ≡ unique_names [] cs
    → (consolidate code (is_verified_mapping m) cs names).identity_confidence ≡ verified
    → Agreed m cs (consolidate code (is_verified_mapping m) cs names)
unfolding consolidate
consolidate-Agreed code m cs [] e h = cc
consolidate-Agreed code m cs (name ∷ []) e h = elim (Bool-cases (is_verified_mapping m)) [
  | inl v ↦ (
    v,
    some_candidate name cs e,
    only_names name (unique_names [] cs) cs (sym e) (unique_names-All cs []),
  )
  | inr v ↦ absurd (not_partial (rw v at h))
]
consolidate-Agreed code m cs (name ∷ other ∷ names) e h = cc

denied_done :
    {out : Authorized} → Path (Result AuthExc Authorized) (raised rbac_denied) (done out) → ⊥
denied_done h = cc

-- What a grant rests on, and what it gives.
abbrev FromEntry : String → Option (Dict String Mapping) → Authorized → Type 0
FromEntry code loaded out =
    (entries : Dict String Mapping) × (m : Mapping) × (loaded ≡ some entries)
    × (lookup code entries ≡ some m)
    × (out.allowed_projects ≡ code ∷ [])

abbrev FromProject : Option String → Option (Dict String Mapping) → Authorized → Type 0
FromProject project loaded out =
    (code : String) × (project ≡ some code)
    × (is_empty_text code ≡ false)
    × FromEntry code loaded out

abbrev pub Granted :
    Option String → Option String → Option (Dict String Mapping) → Authorized → Type 0
Granted role project loaded out =
    (r : Role) × (valid_role role ≡ some r)
    × ((role_permissions r).can_generate_report ≡ true)
    × FromProject project loaded out

module _ (tools : StringTools) where
  -- An identity is verified only where the project's entry is verified, some source names the
  -- project and all the sources that do agree on its name.
  pub resolve_project_identity-Agreed :
      (code : Option String) (m : Mapping) (evidence : List Source)
      → (resolve_project_identity tools code m evidence).identity_confidence ≡ verified
      → Agreed m (candidates_of tools m evidence) (resolve_project_identity tools code m evidence)
  unfolding resolve_project_identity
  resolve_project_identity-Agreed none m evidence h = cc
  resolve_project_identity-Agreed (some code) m evidence h =
      elim (Bool-cases (is_empty_text code)) [
        | inl e ↦ absurd (not_unverified (rw e at h))
        | inr e ↦ rw e (consolidate-Agreed code m _ _ refl (rw e at h))
      ]

  found_entry :
      (role : Option String) (code : String) (evidence : List Source)
      (entries : Dict String Mapping) (o : Option Mapping) (out : Authorized)
      → lookup code entries ≡ o
      → grant tools role code evidence o ≡ done out
      → FromEntry code (some entries) out
  found_entry role code evidence entries none out e h = cc
  found_entry role code evidence entries (some m) out e h =
      (entries, m, refl, e, ap (λ a. a.allowed_projects) (sym (done-injective h)))

  looked_up :
      (role : Option String) (code : String) (evidence : List Source)
      (loaded : Option (Dict String Mapping)) (out : Authorized)
      → look_up tools role code evidence loaded ≡ done out
      → FromEntry code loaded out
  looked_up role code evidence none out h = cc
  looked_up role code evidence (some entries) out h =
      found_entry role code evidence entries (lookup code entries) out refl h

  project_given :
      (role project : Option String) (evidence : List Source)
      (loaded : Option (Dict String Mapping)) (out : Authorized)
      → require_project tools role project evidence loaded ≡ done out
      → FromProject project loaded out
  project_given role none evidence loaded out h = cc
  project_given role (some code) evidence loaded out h = elim (Bool-cases (is_empty_text code)) [
    | inl e ↦ absurd (denied_done (rw e at h))
    | inr e ↦ (code, refl, e, looked_up role code evidence loaded out (rw e at h))
  ]

  role_given :
      (role : Option String) (o : Option Role) (project : Option String) (evidence : List Source)
      (loaded : Option (Dict String Mapping)) (out : Authorized)
      → valid_role role ≡ o
      → require_generate tools role o project evidence loaded ≡ done out
      → Granted role project loaded out
  role_given role none project evidence loaded out e h = cc
  role_given role (some r) project evidence loaded out e h =
      elim (Bool-cases (role_permissions r).can_generate_report) [
        | inl k ↦ (r, e, k, project_given role project evidence loaded out (rw k at h))
        | inr k ↦ absurd (denied_done (rw k at h))
      ]

  -- node_01 lets a run through only with a valid role that generates reports and a project code
  -- that has an entry in the mapping, and then allows that one project.
  pub authorize-Granted :
      (role project : Option String) (evidence : List Source)
      (loaded : Option (Dict String Mapping)) (out : Authorized)
      → authorize tools role project evidence loaded ≡ done out
      → Granted role project loaded out
  unfolding authorize
  authorize-Granted role project evidence loaded out h =
      role_given role (valid_role role) project evidence loaded out refl h
