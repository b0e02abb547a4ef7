-- ===== src/Permissions/Grants/Check/Tables.antt =====
-- The tables of a grants file that list permissions, beside the code's list of sections.
use agent_d.Base.{
  ◌≡◌, refl, subst, inl, inr, List, [], ◌∷◌, ◌++◌, map, In, In-map, In-append_left, In-append_right,
  In-append_cases,
}
use agent_d.Base.Text.{Str}
use agent_d.Permissions.Slug.{Permission, PermissionSet}
use agent_d.Permissions.Grants.{
  ToolGrants, RunnerGrants, InterfaceGrants, ServiceGrants, GrantsFile,
}
use agent_d.Permissions.Grants.Check.{
  Section, of_tool, of_runner, of_interface, of_service, of_denial, sections,
}

-- A permission that one of the file's tables lists.
pub data Listed (g : GrantsFile) (q : Permission) : Type 0 where
  by_tool : (name : Str) (t : ToolGrants) → In (name, t) g.tool → In q t.granted → Listed g q
  by_runner : (name : Str) (t : RunnerGrants) → In (name, t) g.runner → In q t.granted → Listed g q
  by_interface :
      (name : Str) (t : InterfaceGrants) → In (name, t) g.interface → In q t.granted → Listed g q
  by_service :
      (name : Str) (t : ServiceGrants) → In (name, t) g.service → In q t.granted → Listed g q
  by_denial : In q g.denial.permissions → Listed g q

module _ {A : Type 0} (f : A → Section × PermissionSet) where
  -- The sections of one kind of table.
  In-kind :
      (name : Section) (set : PermissionSet) (l : List A)
      → In (name, set) (map f l)
      → (a : A) × In a l × ((name, set) ≡ f a)
  In-kind name set [] m = elim m [ ]
  In-kind name set (x ∷ l) (inl e) = (x, inl refl, e)
  In-kind name set (x ∷ l) (inr m) = let (a, n, e) = In-kind name set l m in (a, inr n, e)

set_of : (q : Permission) (u v : Section × PermissionSet) → u ≡ v → In q u.1 → In q v.1
set_of q u v e m = subst (λ w. In q w.1) e m

-- What the sections of the file are made of.
abbrev of_tools : Str × ToolGrants → Section × PermissionSet
of_tools e = (of_tool e.0, e.1.granted)

abbrev of_runners : Str × RunnerGrants → Section × PermissionSet
of_runners e = (of_runner e.0, e.1.granted)

abbrev of_interfaces : Str × InterfaceGrants → Section × PermissionSet
of_interfaces e = (of_interface e.0, e.1.granted)

abbrev of_services : Str × ServiceGrants → Section × PermissionSet
of_services e = (of_service e.0, e.1.granted)

module _ (g : GrantsFile) where
  abbrev tools : List (Section × PermissionSet)
  tools = map of_tools g.tool

  abbrev runners : List (Section × PermissionSet)
  runners = map of_runners g.runner

  abbrev interfaces : List (Section × PermissionSet)
  interfaces = map of_interfaces g.interface

  abbrev services : List (Section × PermissionSet)
  services = map of_services g.service

  abbrev denials : List (Section × PermissionSet)
  denials = (of_denial, g.denial.permissions) ∷ []

  abbrev from_services : List (Section × PermissionSet)
  from_services = services ++ denials

  abbrev from_interfaces : List (Section × PermissionSet)
  from_interfaces = interfaces ++ from_services

  abbrev from_runners : List (Section × PermissionSet)
  from_runners = runners ++ from_interfaces

  -- The sections list what the tables list.
  pub Listed-of_sections :
      (name : Section) (set : PermissionSet) (q : Permission)
      → In (name, set) (sections g)
      → In q set
      → Listed g q
  unfolding sections
  Listed-of_sections name set q m i = elim (In-append_cases (name, set) tools from_runners m) [
    | inl n ↦
        let ((a, t), k, e) = In-kind of_tools name set g.tool n in
        by_tool a t k (set_of q (name, set) (of_tools (a, t)) e i)
    | inr n ↦ elim (In-append_cases (name, set) runners from_interfaces n) [
      | inl o ↦
          let ((a, t), k, e) = In-kind of_runners name set g.runner o in
          by_runner a t k (set_of q (name, set) (of_runners (a, t)) e i)
      | inr o ↦ elim (In-append_cases (name, set) interfaces from_services o) [
        | inl r ↦
            let ((a, t), k, e) = In-kind of_interfaces name set g.interface r in
            by_interface a t k (set_of q (name, set) (of_interfaces (a, t)) e i)
        | inr r ↦ elim (In-append_cases (name, set) services denials r) [
          | inl u ↦
              let ((a, t), k, e) = In-kind of_services name set g.service u in
              by_service a t k (set_of q (name, set) (of_services (a, t)) e i)
          | inr (inl e) ↦ by_denial (set_of q (name, set) (of_denial, g.denial.permissions) e i)
          | inr (inr u) ↦ elim u [ ]
        ]
      ]
    ]
  ]

  after_tools : (x : Section × PermissionSet) → In x from_runners → In x (tools ++ from_runners)
  after_tools x m = In-append_right x tools from_runners m

  after_runners :
      (x : Section × PermissionSet) → In x from_interfaces → In x (tools ++ from_runners)
  after_runners x m = after_tools x (In-append_right x runners from_interfaces m)

  after_interfaces :
      (x : Section × PermissionSet) → In x from_services → In x (tools ++ from_runners)
  after_interfaces x m = after_runners x (In-append_right x interfaces from_services m)

  pub sections-of_Listed :
      (q : Permission)
      → Listed g q
      → (name : Section) × (set : PermissionSet) × In (name, set) (sections g) × In q set
  unfolding sections
  sections-of_Listed q (by_tool a t m i) =
      let x = of_tools (a, t) in
      (x.0, x.1, In-append_left x tools from_runners (In-map of_tools (a, t) g.tool m), i)
  sections-of_Listed q (by_runner a t m i) =
      let x = of_runners (a, t) in
      let n = In-map of_runners (a, t) g.runner m in
      (x.0, x.1, after_tools x (In-append_left x runners from_interfaces n), i)
  sections-of_Listed q (by_interface a t m i) =
      let x = of_interfaces (a, t) in
      let n = In-map of_interfaces (a, t) g.interface m in
      (x.0, x.1, after_runners x (In-append_left x interfaces from_services n), i)
  sections-of_Listed q (by_service a t m i) =
      let x = of_services (a, t) in
      let n = In-map of_services (a, t) g.service m in
      (x.0, x.1, after_interfaces x (In-append_left x services denials n), i)
  sections-of_Listed q (by_denial i) =
      let x : Section × PermissionSet = (of_denial, g.denial.permissions) in
      (x.0, x.1, after_interfaces x (In-append_right x services denials (inl refl)), i)
