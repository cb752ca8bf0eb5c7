-- ===== src/Desktop/Sync/Laws.antt =====
-- After the effect there is a card for each document and for nothing else.
use papercrate.Base.{List, String, map}
use papercrate.Dict.{Dict}
use papercrate.Desktop.Numbers.{Numbers}
use papercrate.Desktop.Sync.{Sheet}

module _ (n : Numbers) where
  open n use {Num}

  abbrev pub ids_of : List (Sheet Num) → List String
  ids_of docs = map (λ d. d.id) docs
