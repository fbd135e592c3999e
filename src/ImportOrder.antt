-- ===== src/ImportOrder.antt =====
-- The order an import loads DocTypes in: internal/engine/import_order.go. A DocType is its fields;
-- a lookup that fails, or that finds nothing, is `none`.
pub mod Distinct
pub mod Placed
pub mod Earlier
pub mod Index
pub mod Ordered
pub mod Topological
mod Tests
use Prim.Native.String.{compare, ◌++◌ as str_append}
use Prim.Native.Nat.{Ordering}
use ddcore.Common.{
  ℕ, zero, suc, String, Bool, true, false, not, ◌&&◌, ◌||◌, Option, none, some, List, [], ◌∷◌, ◌++◌,
  if◌then◌else◌, str_eq, any, select, length, ltb, ◌==◌, coalesce, is_some,
}
use ddcore.Perm.{Kind, link, dynamic_link, table, other, contains}

pub record Field : Type 0 where
  pub fieldname : String
  pub kind : Kind
  pub options : String

pub record ImportStage : Type 0 where
  pub doctype : String
  pub deferred : List String

abbrev pub Lookup : Type 0
Lookup = String → Option (List Field)

abbrev pub is_link : Kind → Bool
is_link link = true
is_link dynamic_link = true
is_link _ = false

-- the links of a child table, under the parent's field
abbrev pub child_links : String → List Field → List Field
child_links table_field [] = []
child_links table_field (f ∷ fs) =
    let rest = child_links table_field fs in
    if is_link f.kind
    then record f { fieldname = str_append table_field (str_append "." f.fieldname) } ∷ rest
    else rest

abbrev pub links_of : Lookup → Field → List Field
links_of lookup f = elim f.kind [
  | link ↦ f ∷ []
  | dynamic_link ↦ f ∷ []
  | table ↦ elim (lookup f.options) [ none ↦ [] | some fs ↦ child_links f.fieldname fs ]
  | other ↦ []
]

unfoldable pub link_fields : Lookup → List Field → List Field
link_fields lookup [] = []
link_fields lookup (f ∷ fs) = links_of lookup f ++ link_fields lookup fs

-- whether the field is a Link into the set that is loaded
abbrev pub links_in : List String → Field → Bool
links_in doctypes f = elim f.kind [ link ↦ contains doctypes f.options | _ ↦ false ]

-- deps[n]: a set
unfoldable pub targets : List String → String → List Field → List String
targets doctypes n [] = []
targets doctypes n (f ∷ fs) =
    let rest = targets doctypes n fs in
    if links_in doctypes f && not (str_eq f.options n) && not (contains rest f.options)
    then f.options ∷ rest
    else rest

abbrev pub fields_in : Lookup → String → List Field
fields_in lookup n = elim (lookup n) [ none ↦ [] | some fs ↦ link_fields lookup fs ]

abbrev pub deps_of : List String → Lookup → String → List String
deps_of doctypes lookup n = targets doctypes n (fields_in lookup n)

-- sort.Strings
abbrev pub str_le : String → String → Bool
str_le a b = elim (compare a b) [ Ordering.gt ↦ false | _ ↦ true ]

unfoldable pub insert_sorted : String → List String → List String
insert_sorted x [] = x ∷ []
insert_sorted x (y ∷ ys) =
    let rest = insert_sorted x ys in if str_le x y then x ∷ y ∷ ys else y ∷ rest

unfoldable pub sort_strings : List String → List String
sort_strings [] = []
sort_strings (x ∷ xs) = insert_sorted x (sort_strings xs)

-- how many of the dependencies are not placed
abbrev pub waiting : List String → List String → ℕ
waiting placed deps = length (select (λ t. not (contains placed t)) deps)

abbrev pub is_ready : (String → List String) → List String → String → Bool
is_ready deps placed n = not (contains placed n) && waiting placed (deps n) == 0

-- fewestDeps, from the best name so far
unfoldable pub fewest_from :
    (String → List String) → List String → String → ℕ → List String → String
fewest_from deps placed best best_n [] = best
fewest_from deps placed best best_n (n ∷ names) =
    let count = waiting placed (deps n) in
    let taken = fewest_from deps placed n count names in
    let kept = fewest_from deps placed best best_n names in
    if contains placed n then kept else if str_eq best "" || ltb count best_n then taken else kept

abbrev pub or_fewest : String → List String → List String
or_fewest best [] = best ∷ []
or_fewest best (n ∷ names) = n ∷ names

-- what one round places
abbrev pub round : (String → List String) → List String → List String → List String
round deps names placed =
    or_fewest (fewest_from deps placed "" 0 names) (select (is_ready deps placed) names)

-- The loop of ImportOrder; `order` is what has been placed. `none` when the fuel runs out.
unfoldable pub rounds :
    ℕ → (String → List String) → List String → List String → Option (List String)
rounds zero deps names order = none
rounds (suc fuel) deps names order =
    let more = rounds fuel deps names (order ++ round deps names order) in
    if ltb (length order) (length names) then more else some order

-- the last index of a name, as the loop over the order leaves it in the map
unfoldable pub index_of : List String → String → Option ℕ
index_of [] t = none
index_of (x ∷ xs) t = elim (index_of xs t) [
  | none ↦ if str_eq x t then some 0 else none
  | some i ↦ some (suc i)
]

unfoldable pub position : List String → String → ℕ
position order t = coalesce (index_of order t) 0

-- whether the check of the field waits until everything is loaded
unfoldable pub is_deferred : List String → List String → String → Field → Bool
is_deferred doctypes order n f = elim f.kind [
  | dynamic_link ↦ true
  | link ↦
      contains doctypes f.options
      && (str_eq f.options n || ltb (position order n) (position order f.options))
  | table ↦ false
  | other ↦ false
]

abbrev pub names_of : List Field → List String
names_of [] = []
names_of (f ∷ fs) = f.fieldname ∷ names_of fs

abbrev pub stage_of : List String → Lookup → List String → String → ImportStage
stage_of doctypes lookup order n = record {
  doctype = n;
  deferred = sort_strings (names_of (select (is_deferred doctypes order n) (fields_in lookup n)));
}

abbrev pub stages_of : List String → Lookup → List String → List String → List ImportStage
stages_of doctypes lookup order [] = []
stages_of doctypes lookup order (n ∷ ns) =
    stage_of doctypes lookup order n ∷ stages_of doctypes lookup order ns

abbrev pub all_known : Lookup → List String → Bool
all_known lookup [] = true
all_known lookup (n ∷ ns) = is_some (lookup n) && all_known lookup ns

-- the second pass looks every placed name up again
abbrev pub staged : List String → Lookup → Option (List String) → Option (List ImportStage)
staged doctypes lookup none = none
staged doctypes lookup (some order) =
    if all_known lookup order then some (stages_of doctypes lookup order order) else none

unfoldable pub import_order : List String → Lookup → Option (List ImportStage)
import_order doctypes lookup =
    let sorted =
      staged doctypes lookup
        (rounds (suc (length doctypes)) (deps_of doctypes lookup) (sort_strings doctypes) []) in
    if all_known lookup doctypes then sorted else none
