-- ===== src/PdfMerger.antt =====
-- app/pdf_merger.py: PDF documents, as far as the merge looks into them. An object that is only
-- passed on is opaque, an object that the code takes apart is a record or a tree of what it reads.
-- The number and name trees and the structure tree are the trees that a file format makes of them:
-- no node stands in two places.
pub mod ParentTree
pub mod PageKeys
pub mod Prune
pub mod EmbeddedFiles
pub mod Structures
pub mod Merge
pub mod Jobs
use bulk_processing_service.Base.{Bool, List, Option, Text, [], none, some, ℕ, ◌∷◌, ◌≡◌}
use bulk_processing_service.Base.Dict.{Dict}
use bulk_processing_service.Storage.{Result, ok}
use bulk_processing_service.Base.Dict

-- pikepdf. `to_int`, `to_text` are `int` and `str` of an object, `of_int`, `of_text` and `of_array`
-- the objects that are written; `array_of` are the elements of an object that is an array;
-- `objgen` and `is_indirect` the attributes of that name. `copy_foreign` is what the target gets for
-- an object of another document.
pub record PdfObjects : Type 1 where
  pub Object : Type 0
  pub to_int : Object → Result ℕ
  pub of_int : ℕ → Object
  pub to_text : Object → Text
  pub of_text : Text → Object
  pub array_of : Object → Option (List Object)
  pub of_array : List Object → Object
  pub is_indirect : Object → Bool
  pub objgen : Object → ℕ × ℕ
  pub copy_foreign : Object → Object

-- A number tree: its `/Nums`, where it has any, and its `/Kids`.
mutual
  pub data NumberTree (O : Type 0) : Type 0 where
    number_node : Option O → NumberTrees O → NumberTree O

  pub data NumberTrees (O : Type 0) : Type 0 where
    no_numbers : NumberTrees O
    more_numbers : NumberTree O → NumberTrees O → NumberTrees O

-- A name tree: its `/Names` and its `/Kids`.
mutual
  pub data NameTree (O : Type 0) : Type 0 where
    name_node : Option O → NameTrees O → NameTree O

  pub data NameTrees (O : Type 0) : Type 0 where
    no_names : NameTrees O
    more_names : NameTree O → NameTrees O → NameTrees O

-- An element of the structure: its `/Pg` by `objgen`, its `/Lang`, what else it holds, and its `/K`
-- as a list. A kid is an element (a dictionary with `/S`), another dictionary with its `/Pg`, as a
-- reference to an annotation, or no dictionary, as the number of a piece of marked content.
mutual
  pub data Element (O : Type 0) : Type 0 where
    element : Option (ℕ × ℕ) → Option Text → O → Kids O → Element O

  pub data Kids (O : Type 0) : Type 0 where
    no_kids : Kids O
    child : Element O → Kids O → Kids O
    reference : Option (ℕ × ℕ) → O → Kids O → Kids O
    marked : O → Kids O → Kids O

-- `/StructTreeRoot`: the parent tree, its next key, the elements in `/K`, and the maps of roles and
-- classes by their keys.
pub record Structure (O : Type 0) : Type 0 where
  pub parent_tree : NumberTree O
  pub next_key : ℕ
  pub elements : List (Element O)
  pub maps : Dict Text (Dict Text O)

-- An annotation of a page: its `/StructParent`, and the rest of it.
pub record Annotation (O : Type 0) : Type 0 where
  pub struct_parent : Option ℕ
  pub rest : O

-- A page: its `objgen`, its `/StructParents`, its annotations, and the rest of it.
pub record Page (O : Type 0) : Type 0 where
  pub objgen : ℕ × ℕ
  pub struct_parents : Option ℕ
  pub annotations : List (Annotation O)
  pub rest : O

-- `/Names` of the catalog: the tree of the embedded files, and the other trees.
pub record Names (O : Type 0) : Type 0 where
  pub embedded_files : Option (NameTree O)
  pub others : Dict Text O

-- A document: its pages and the entries of its catalog that the merge reads or writes.
pub record Pdf (O : Type 0) : Type 0 where
  pub pages : List (Page O)
  pub structure : Option (Structure O)
  pub lang : Option Text
  pub outlines : Option O
  pub names : Option (Names O)
  pub page_mode : Option Text
  pub associated : Option O
  pub rest : O

-- `_list`
unfoldable pub list_of : (p : PdfObjects) → Option p.Object → List p.Object
list_of p none = []
list_of p (some found) = elim (p.array_of found) [ some items ↦ items | none ↦ found ∷ [] ]

-- What is written is read back.
pub record IsLawful (p : PdfObjects) : Type 0 where
  pub to_int-of_int : (n : ℕ) → p.to_int (p.of_int n) ≡ ok n
  pub to_text-of_text : (t : Text) → p.to_text (p.of_text t) ≡ t
  pub array_of-of_array : (items : List p.Object) → p.array_of (p.of_array items) ≡ some items
