-- ===== src/Tests/Pdf.antt =====
-- Two small documents, and a library that opens them, for the theorems on app/pdf_merger.py.
use bulk_processing_service.Base.{
  Bytes, List, Option, Text, [], ap, codes, eqb, false, if◌then◌else◌, none, refl, some, ℕ, ◌+◌,
  ◌∷◌, ◌≡◌,
}
use bulk_processing_service.PdfMerger.{
  Annotation, Element, IsLawful, Names, Page, Pdf, PdfObjects, Structure, child, element, marked,
  name_node, no_kids, no_names, no_numbers, number_node,
}
use bulk_processing_service.PdfMerger.Merge.{PdfLibrary}
use bulk_processing_service.Storage.{Result, err, ok, other_error}

mutual
  pub data PdfItem : Type 0 where
    int_item : ℕ → PdfItem
    text_item : Text → PdfItem
    array_item : PdfItems → PdfItem

  pub data PdfItems : Type 0 where
    end_items : PdfItems
    cons_items : PdfItem → PdfItems → PdfItems

unfoldable pub items_list : PdfItems → List PdfItem
items_list end_items = []
items_list (cons_items i items) = i ∷ items_list items

unfoldable pub list_items : List PdfItem → PdfItems
list_items [] = end_items
list_items (i ∷ items) = cons_items i (list_items items)

items_list-list_items : (items : List PdfItem) → items_list (list_items items) ≡ items
unfolding items_list list_items
items_list-list_items [] = refl
items_list-list_items (i ∷ items) = ap (λ l. i ∷ l) (items_list-list_items items)

abbrev int_of : PdfItem → Result ℕ
int_of (int_item n) = ok n
int_of _ = err other_error

abbrev pub text_of : PdfItem → Text
text_of (text_item t) = t
text_of _ = []

abbrev elements_of : PdfItem → Option (List PdfItem)
elements_of (array_item items) = some (items_list items)
elements_of _ = none

abbrev pub objects : PdfObjects
objects = record {
  Object = PdfItem;
  to_int = int_of;
  of_int = int_item;
  to_text = text_of;
  of_text = text_item;
  array_of = elements_of;
  of_array = λ items. array_item (list_items items);
  is_indirect = λ _. false;
  objgen = λ _. (0, 0);
  copy_foreign = λ o. o;
}

pub objects-IsLawful : IsLawful objects
objects-IsLawful = record {
  to_int-of_int = λ n. refl;
  to_text-of_text = λ t. refl;
  array_of-of_array = λ items. ap some (items_list-list_items items);
}

-- A structure with one paragraph for each page, whose keys start with 0.
abbrev paragraph : ℕ × ℕ → Element PdfItem
paragraph page = element (some page) none (text_item (codes "P")) (marked (int_item 0) no_kids)

abbrev pub two_paragraphs : Element PdfItem
two_paragraphs =
    element none none (text_item (codes "Document"))
      (child (paragraph (1, 0)) (child (paragraph (2, 0)) no_kids))

abbrev pub number_list : List ℕ → List PdfItem
number_list [] = []
number_list (n ∷ ns) = int_item n ∷ text_item (codes "P") ∷ number_list ns

abbrev pub root_of : List ℕ → Element PdfItem → Structure PdfItem
root_of keys document = record {
  parent_tree = number_node (some (array_item (list_items (number_list keys)))) no_numbers;
  next_key = 9;
  elements = document ∷ [];
  maps = [];
}

abbrev pub page_of : ℕ × ℕ → ℕ → List (Annotation PdfItem) → Text → Page PdfItem
page_of objgen key annotations text = record {
  objgen = objgen;
  struct_parents = some key;
  annotations = annotations;
  rest = text_item text;
}

abbrev pub link : Annotation PdfItem
link = record { struct_parent = some 2; rest = text_item (codes "link") }

abbrev pub names_with : Text → Names PdfItem
names_with name = record {
  embedded_files = some (
      name_node (some (array_item (list_items (text_item name ∷ text_item (codes "spec") ∷ []))))
        no_names);
  others = (codes "/Dests", text_item []) ∷ [];
}

-- A document whose first page is the placeholder, with bookmarks and an embedded file.
abbrev pub report : Pdf PdfItem
report = record {
  pages =
      page_of (1, 0) 0 [] (codes "Page to be removed")
      ∷ page_of (2, 0) 1 (link ∷ []) (codes "A")
      ∷ [];
  structure = some (root_of (0 ∷ 1 ∷ 2 ∷ []) two_paragraphs);
  lang = none;
  outlines = some (text_item (codes "bookmarks"));
  names = some (names_with (codes "data"));
  page_mode = some (codes "/UseOutlines");
  associated = none;
  rest = text_item [];
}

-- A document of one page.
abbrev pub one_page : Pdf PdfItem
one_page = record {
  pages = page_of (1, 0) 0 [] (codes "B") ∷ [];
  structure = some (
      root_of (0 ∷ [])
        (element none none (text_item (codes "Document")) (child (paragraph (1, 0)) no_kids)));
  lang = some (codes "de");
  outlines = none;
  names = some (names_with (codes "data"));
  page_mode = none;
  associated = none;
  rest = text_item [];
}

abbrev texts_of : List (Page PdfItem) → List Text
texts_of [] = []
texts_of (page ∷ pages) = text_of page.rest ∷ texts_of pages

abbrev open_bytes : Bytes → Result (Pdf PdfItem)
open_bytes [] = err other_error
open_bytes (b ∷ bytes) =
    if eqb b 1 then ok report else if eqb b 2 then ok one_page else err other_error

abbrev reader_of : Result (Pdf PdfItem) → Result (List Text)
reader_of (ok pdf) = ok (texts_of pdf.pages)
reader_of (err e) = err e

-- A copy is another object.
abbrev pub library : PdfLibrary objects
library = record {
  ReaderPage = Text;
  open_reader = λ b. reader_of (open_bytes b);
  extract_text = λ t. ok (some t);
  open_pdf = open_bytes;
  save = λ pdf. ok (1 ∷ []);
  new_pdf = record one_page { pages = [] };
  copy_page = λ target page. record page { objgen = (page.objgen.0 + 10, 0) };
  copy_element = λ target e. e;
}
