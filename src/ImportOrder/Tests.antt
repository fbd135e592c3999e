-- ===== src/ImportOrder/Tests.antt =====
-- An import of tasks, projects and users, and the theorems at it.
use ddcore.Common.{
  ◌||◌, eq_iff, arith, subst, inr, inl, Bool-cases, false, Has, ℕ, ◌≡◌, ◌<◌, refl, true, none, some,
  List, [], ◌∷◌, String, str_eq, if◌then◌else◌,
}
use ddcore.Perm.{link, contains}
use ddcore.ImportOrder.{
  is_deferred, deps_of, fields_in, link_fields, targets, Field, ImportStage, Lookup, import_order,
  stages_of, position, all_known,
}
use ddcore.ImportOrder.Distinct.{or-split, clash, NoDup, Sub}
use ddcore.ImportOrder.Topological.{import_order-undeferred}
use ddcore.ImportOrder.Earlier.{IsChecked, import_order-Sorted}

abbrev link_to : String → String → Field
link_to name target = record { fieldname = name; kind = link; options = target }

-- a task links to its project and to the task that it amends, a project to its owner
abbrev lookup : Lookup
lookup n =
    if str_eq n "Task"
    then some (link_to "project" "Project" ∷ link_to "amended_from" "Task" ∷ [])
    else if str_eq n "Project"
    then some (link_to "lead" "User" ∷ [])
    else if str_eq n "User"
    then some []
    else none

abbrev loaded : List String
loaded = "Task" ∷ "User" ∷ "Project" ∷ []

orders :
    import_order loaded lookup
    ≡ some (
        record { doctype = "User"; deferred = [] }
        ∷ record { doctype = "Project"; deferred = [] }
        ∷ record { doctype = "Task"; deferred = "amended_from" ∷ [] }
        ∷ [])
unfolding import_order ddcore.ImportOrder.rounds ddcore.ImportOrder.sort_strings
    ddcore.ImportOrder.insert_sorted ddcore.ImportOrder.targets ddcore.ImportOrder.link_fields
    ddcore.ImportOrder.is_deferred position ddcore.ImportOrder.index_of
orders = refl

unknown : import_order ("Task" ∷ "Role" ∷ []) lookup ≡ none
unfolding import_order
unknown = refl

import_order-Sorted_example :
    (order : List String) × (import_order loaded lookup
      ≡ some (stages_of loaded lookup order order))
    × NoDup order
    × Sub order loaded
    × Sub loaded order
    × ((n : String) (f : Field)
        → contains order n ≡ true
        → IsChecked loaded order n f
        → position order f.options < position order n)
import_order-Sorted_example = import_order-Sorted loaded lookup (refl, (refl, (refl, tt))) refl

abbrev rank : String → ℕ
rank n = if str_eq n "Task" then 2 else if str_eq n "Project" then 1 else 0

only : (x t : String) (k : ℕ) → rank x < k → (str_eq x t || false) ≡ true → rank t < k
only x t k h m = elim (or-split (str_eq x t) false m) [
  | inl e ↦ subst (λ z. rank z < k) ((eq_iff x t).0 e) h
  | inr e ↦ absurd (clash e refl)
]

at_task : (t : String) → contains (deps_of loaded lookup "Task") t ≡ true → rank t < 2
unfolding targets link_fields
at_task t m = only "Project" t 2 (omega arith) m

at_project : (t : String) → contains (deps_of loaded lookup "Project") t ≡ true → rank t < 1
unfolding targets link_fields
at_project t m = only "User" t 1 (omega arith) m

at_user : (t : String) → contains (deps_of loaded lookup "User") t ≡ true → ⊥
unfolding targets link_fields
at_user t m = clash m refl

at_unknown : (n t : String) → lookup n ≡ none → contains (deps_of loaded lookup n) t ≡ true → ⊥
unfolding targets link_fields
at_unknown n t e m =
    clash
      (subst
        (λ o.
          contains (targets loaded n (elim o [ none ↦ [] | some fs ↦ link_fields lookup fs ])) t
          ≡ true)
        e m)
      refl

falls : (n t : String) → contains (deps_of loaded lookup n) t ≡ true → rank t < rank n
unfolding targets link_fields
falls n t m = elim (Bool-cases (str_eq n "Task")) [
  | inl k ↦ rw k (
      at_task t
        (subst (λ z. contains (deps_of loaded lookup z) t ≡ true) ((eq_iff n "Task").0 k) m))
  | inr k ↦ elim (Bool-cases (str_eq n "Project")) [
    | inl l ↦
        rw (k, l)
          (at_project t
            (subst (λ z. contains (deps_of loaded lookup z) t ≡ true) ((eq_iff n "Project").0 l) m))
    | inr l ↦ elim (Bool-cases (str_eq n "User")) [
      | inl u ↦ absurd (
          at_user t
            (subst (λ z. contains (deps_of loaded lookup z) t ≡ true) ((eq_iff n "User").0 u) m))
      | inr u ↦ absurd (at_unknown n t (rw (k, l, u) refl) m)
    ]
  ]
]

import_order-undeferred_example :
    (order : List String) × (import_order loaded lookup
      ≡ some (stages_of loaded lookup order order))
    × Sub loaded order
    × ((n : String) (f : Field)
        → contains order n ≡ true
        → Has f (fields_in lookup n)
        → f.kind ≡ link
        → str_eq f.options n ≡ false
        → is_deferred loaded order n f ≡ false)
import_order-undeferred_example =
    import_order-undeferred loaded lookup rank falls (refl, (refl, (refl, tt))) refl
