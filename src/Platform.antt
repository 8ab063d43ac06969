-- ===== src/Platform.antt =====
-- What the program takes from outside the repository, as arguments of the definitions that use it:
-- libxml2's `xmlStrcmp`, the C library's `bsearch`, GLib's `g_ptr_array_sort`, and libnixxml's
-- `NixXML_generate_env_vars_generic_glib`. `IsPlatform` states what their documentation promises.
pub mod Posix
use mathlib.Core.List.{Perm}
use disnix.Prelude.{ℕ, String, Ordering, ◌≡◌, ◌≢◌, Option, none, some, List, get_elem?}
use disnix.Order.{IsOrder, IsSorted}

-- A `NixXML_Node`: the types that find_target_property tells apart, each with its text.
pub data Node : Type 0 where
  string int float bool list attrset : String → Node

-- A GLib hash table with text keys; the first entry of a key is the one in force.
abbrev pub Table {ℓ} : Type ℓ → Type ℓ
Table V = List (String × V)

pub record Platform : Type 1 where
  pub xml_strcmp : String → String → Ordering
  -- The position of the element found, or `none` for NULL.
  pub bsearch : (A : Type 0) → (A → A → Ordering) → A → List A → Option ℕ
  pub g_ptr_array_sort : (A : Type 0) → (A → A → Ordering) → List A → List A
  -- Given NULL where a container is not in the table.
  pub generate_env_vars : Option (Table Node) → List String

pub record IsPlatform (p : Platform) : Type 1 where
  pub strcmp_order : IsOrder p.xml_strcmp
  pub bsearch_found :
      (A : Type 0) (cmp : A → A → Ordering) (key : A) (l : List A) (i : ℕ)
      → IsOrder cmp
      → IsSorted cmp l
      → p.bsearch A cmp key l ≡ some i
      → (x : A) × (get_elem? l i ≡ some x) × (cmp key x ≡ Ordering.eq)
  pub bsearch_missing :
      (A : Type 0) (cmp : A → A → Ordering) (key : A) (l : List A)
      → IsOrder cmp
      → IsSorted cmp l
      → p.bsearch A cmp key l ≡ none
      → (i : ℕ) (x : A) → get_elem? l i ≡ some x
      → cmp key x ≢ Ordering.eq
  pub sort_perm :
      (A : Type 0) (cmp : A → A → Ordering) (l : List A) → Perm (p.g_ptr_array_sort A cmp l) l
  pub sort_sorted :
      (A : Type 0) (B : Type 0) (cmp : B → B → Ordering) (f : A → B) (l : List A)
      → IsOrder cmp
      → IsSorted (λ x y. cmp (f x) (f y)) (p.g_ptr_array_sort A (λ x y. cmp (f x) (f y)) l)
