-- ===== src/AssetCache.antt =====
-- The cache of assets with the URLs to download them: class `AssetManager` and the helpers of
-- frontend/src/lib/assets/AssetManager.ts. Times are whole milliseconds; `now` is `Date.now()` at the
-- call. `ensureAsset` is split where it waits for the fetch.
pub mod Laws
mod Tests
use Prim.Native.String.{◌++◌ as ◌+++◌}
use papercrate.Base.{
  ℕ, suc, String, Bool, true, false, List, [], ◌∷◌, Option, none, some, ◌==◌, ◌&&◌, ◌||◌, not,
  if◌then◌else◌, ltb, nat_eq, or_else, is_some,
}
use papercrate.Api.{Reply, ok, failed}
use papercrate.Dict.{Dict, lookup, insert, erase}
use papercrate.Js.{Fields, spread}

pub record Download : Type 0 where
  pub url : String
  pub expires_at : ℕ

-- An asset: its identifier, its `download`, absent, null or there, the `url` and `expires_at` that an
-- entry of the cache gets besides, and its other properties.
pub record Asset : Type 0 where
  pub id : Option String
  pub download : Option (Option Download)
  pub url : Option String
  pub expires_at : Option ℕ
  pub rest : Fields

abbrev pub download_of : Asset → Option Download
download_of a = or_else a.download none

unfoldable pub resolve_asset_expires_at : Asset → Option ℕ
resolve_asset_expires_at a = elim (download_of a) [ none ↦ none | some d ↦ some d.expires_at ]

unfoldable pub resolve_asset_url : Asset → Option String
resolve_asset_url a = elim (download_of a) [ none ↦ none | some d ↦ some d.url ]

abbrev pub is_text : Option String → Bool
is_text none = false
is_text (some s) = not (s == "")

-- `!expiresAt || expiresAt > now`
abbrev pub is_fresh : Option ℕ → ℕ → Bool
is_fresh none now = true
is_fresh (some at) now = nat_eq at 0 || ltb now at

-- `isPrimarySatisfied`
unfoldable pub is_primary_satisfied : Asset → ℕ → Bool
unfolding resolve_asset_expires_at resolve_asset_url
is_primary_satisfied a now =
    is_text (resolve_asset_url a) && is_fresh (resolve_asset_expires_at a) now

abbrev pub or_first {ℓ} : {A : Type ℓ} → Option A → Option A → Option A
or_first none b = b
or_first (some a) b = some a

-- `{ ...a, ...b }`
unfoldable pub combine : Asset → Asset → Asset
combine a b = record {
  id = or_first b.id a.id;
  download = or_first b.download a.download;
  url = or_first b.url a.url;
  expires_at = or_first b.expires_at a.expires_at;
  rest = spread a.rest b.rest;
}

pub record AssetManager : Type 0 where
  pub fetcher : Bool
  pub asset_cache : Dict Asset
  -- the request under way for a key, by its number
  pub asset_inflight : Dict ℕ
  pub next_request : ℕ

unfoldable pub remember_asset : Option Asset → AssetManager → AssetManager
remember_asset none m = m
remember_asset (some a) m = elim a.id [
  | none ↦ m
  | some id ↦ if id == "" then m else record m { asset_cache = insert id a m.asset_cache }
]

-- What a call of `ensureAsset` gives: an asset at once, the request under way, a request of its own,
-- or an error.
pub data Ensured : Type 0 where
  resolved : Option Asset → Ensured
  joined requested : ℕ → Ensured
  rejected : Ensured

-- `${documentId}:${asset.id}`
abbrev pub inflight_key : String → String → String
inflight_key document_id id = document_id +++ (":" +++ id)

-- A call with a document and an asset that have identifiers; `base` is the asset that is cached, or
-- the one given.
unfoldable pub ensure_named :
    String → String → Asset → Bool → ℕ → AssetManager → AssetManager × Ensured
unfolding is_primary_satisfied remember_asset
ensure_named document_id id asset force now m =
    let base = or_else (lookup id m.asset_cache) asset in
    let key = inflight_key document_id id in
    let sent : AssetManager × Ensured =
      if m.fetcher
      then (
        record m {
          asset_inflight = insert key m.next_request m.asset_inflight;
          next_request = suc m.next_request;
        },
        requested m.next_request,
      )
      else (m, rejected) in
    if not force && is_primary_satisfied base now
    then (remember_asset (some base) m, resolved (some base))
    else if force
    then sent
    else elim (lookup key m.asset_inflight) [ none ↦ sent | some request ↦ (m, joined request) ]

abbrev pub named : Option String → Option String
named none = none
named (some s) = if s == "" then none else some s

abbrev pub id_of : Option Asset → Option String
id_of none = none
id_of (some a) = a.id

unfoldable pub ensure_asset :
    Option String → Option Asset → Bool → ℕ → AssetManager → AssetManager × Ensured
unfolding ensure_named
ensure_asset document_id none force now m = (m, resolved none)
ensure_asset document_id (some a) force now m = elim (named document_id) [
  | none ↦ (m, resolved (some a))
  | some document ↦ elim (named a.id) [
    | none ↦ (m, resolved (some a))
    | some id ↦ ensure_named document id a force now m
  ]
]

-- The rest of a request when the fetcher has answered: what was cached or given when it was sent is
-- `base`.
unfoldable pub settle :
    String
    → String
    → Asset
    → Asset
    → Reply (Option Asset)
    → AssetManager
    → AssetManager × Reply (Option Asset)
unfolding combine remember_asset resolve_asset_url resolve_asset_expires_at
settle document_id id asset base answer m =
    let key = inflight_key document_id id in
    let released = record m { asset_inflight = erase key m.asset_inflight } in
    elim answer [
      | failed ↦ (released, failed)
      | ok none ↦ (released, ok none)
      | ok (some fetched) ↦
          let combined = combine (combine (or_else (lookup id m.asset_cache) base) asset) fetched in
          let entry = record combined {
            url = resolve_asset_url combined;
            expires_at = resolve_asset_expires_at combined;
          } in
          (remember_asset (some entry) released, ok (some entry))
    ]

unfoldable pub reset : AssetManager → AssetManager
reset m = record m { asset_cache = []; asset_inflight = [] }

unfoldable pub set_fetch_asset : Bool → AssetManager → AssetManager
set_fetch_asset given m = record m { fetcher = given }

-- `resolveDocumentAssetUrl`, of the asset that `getAsset` gives: the URL, and whether `ensureAssetUrl`
-- is called, with or without force.
unfoldable pub resolve_document_asset_url : Option Asset → String → ℕ → Option String × Option Bool
unfolding resolve_asset_url resolve_asset_expires_at
resolve_document_asset_url none document_id now = (none, none)
resolve_document_asset_url (some a) document_id now =
    let url = resolve_asset_url a in
    let at = resolve_asset_expires_at a in
    let force = is_text url && not (is_fresh at now) in
    if is_text url && is_fresh at now
    then (url, none)
    else if not (document_id == "") && is_text a.id
    then (none, some force)
    else (none, none)
