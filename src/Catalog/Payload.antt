-- ===== src/Catalog/Payload.antt =====
-- The labels of tags and the names of correspondents that are sent to the API: `normalizeLabel` and
-- `buildPayload` of frontend/src/lib/assets/TagManager.ts and CorrespondentManager.ts.
use papercrate.Base.{◌≡◌, refl, String, false, Option, none, some, ◌==◌, if◌then◌else◌}
use papercrate.Api.{Reply, ok, failed}
use papercrate.Text.{trim}
use papercrate.Text.Laws.{trim_twice}

pub record TagPayload : Type 0 where
  pub label : String
  pub color : String

-- `label?.trim?.() || ''`, also `normalizeName`
unfoldable pub normalize_label : Option String → String
normalize_label none = ""
normalize_label (some label) = trim label

-- an empty label is thrown; `generated` is what `colorGenerator` gives
unfoldable pub build_payload : Option String → Option String → String → Reply TagPayload
unfolding normalize_label
build_payload label color generated =
    if normalize_label label == ""
    then failed
    else ok (record {
      label = normalize_label label;
      color = if normalize_label color == "" then generated else normalize_label color;
    })

-- the same of a correspondent
unfoldable pub build_name : Option String → Reply String
unfolding normalize_label
build_name name = if normalize_label name == "" then failed else ok (normalize_label name)

abbrev color_or : String → String → String
color_or color generated = if color == "" then generated else color

normalize_twice : (label : Option String) → trim (normalize_label label) ≡ normalize_label label
unfolding normalize_label
normalize_twice none = unfold trim papercrate.Text.trim_start papercrate.Text.trim_end in refl
normalize_twice (some label) = trim_twice label

-- A payload is made of a label and a colour that do not trim to nothing. Its label is not empty, and
-- made again from itself, the payload is the same.
pub build_payload_settles :
    (label color : Option String) (generated again : String)
    → (normalize_label label == "") ≡ false
    → (normalize_label color == "") ≡ false
    → (p : TagPayload) × (build_payload label color generated ≡ ok p)
      × ((p.label == "") ≡ false)
      × (build_payload (some p.label) (some p.color) again ≡ ok p)
unfolding build_payload
build_payload_settles label color generated again l c = (
  record { label = normalize_label label; color = normalize_label color },
  rw (l, c) refl,
  l,
  unfold normalize_label in rw (normalize_twice label, normalize_twice color, l, c) refl,
)
