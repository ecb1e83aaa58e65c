-- ===== src/Ebics/Xml.antt =====
-- The element trees that lxml hands to the engine, and the absolute paths by local name that
-- painfree/ebics3/responses.py reads them with.
use painfree_ebics_middlewar.Prelude.{
  Text, text_eq, Option, none, some, List, [], ◌∷◌, ◌++◌, if◌then◌else◌,
}

mutual
  -- A node's local name, its `.text`, its attributes and its child elements in document order.
  pub data Element : Type 0 where
    element : Text → Option Text → List (Text × Text) → Elements → Element

  pub data Elements : Type 0 where
    nil : Elements
    cons : Element → Elements → Elements

abbrev pub local_name : Element → Text
local_name (element n t a c) = n

abbrev pub content : Element → Option Text
content (element n t a c) = t

abbrev pub attributes : Element → List (Text × Text)
attributes (element n t a c) = a

abbrev pub child_elements : Element → Elements
child_elements (element n t a c) = c

-- `node.get(name)`.
unfoldable pub get_attribute : List (Text × Text) → Text → Option Text
get_attribute [] name = none
get_attribute ((k, v) ∷ rest) name = if text_eq k name then some v else get_attribute rest name

-- The children of one node that the step `*[local-name()='name']` selects.
unfoldable pub named_children : Elements → Text → List Element
named_children nil name = []
named_children (cons e es) name =
    let rest = named_children es name in if text_eq (local_name e) name then e ∷ rest else rest

unfoldable pub step : List Element → Text → List Element
unfolding named_children
step [] name = []
step (e ∷ es) name = named_children (child_elements e) name ++ step es name

unfoldable pub select : List Element → List Text → List Element
unfolding step
select nodes [] = nodes
select nodes (name ∷ path) = select (step nodes name) path

abbrev pub head? : List Element → Option Element
head? [] = none
head? (e ∷ es) = some e

-- `_first(root, "/*/*[local-name()=…]…")`: the path starts below the document's root element.
unfoldable pub first : Element → List Text → Option Element
unfolding select
first root path = head? (select (root ∷ []) path)
