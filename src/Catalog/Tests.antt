-- ===== src/Catalog/Tests.antt =====
-- The theorems of the managers of tags and correspondents at two tags.
use papercrate.Base.{refl, String, List, [], ◌∷◌, contains, Distinct}
use papercrate.Js.{Fields, end, field, text, get, truthy_identifier}
use papercrate.Catalog.{Catalog, new, id_of}
use papercrate.Catalog.Laws.{ids_of}

abbrev tag : String → String → Fields
tag id label = field "id" (text id) (field "label" (text label) end)

abbrev sent : List Fields
sent = tag "t1" "tax" ∷ tag "t2" "paid" ∷ []

sent-Distinct : Distinct (ids_of sent)
unfolding ids_of id_of get truthy_identifier contains
sent-Distinct = (refl, (refl, tt))

abbrev holding : Catalog
holding = record new { by_id = ("t1", tag "t1" "tax") ∷ [] }
