-- ===== src/AssetCache/Tests.antt =====
-- A preview that is fetched, and a manager that has nothing.
use papercrate.Base.{◌≡◌, refl, true, false, [], none, some, or_else, arith}
use papercrate.Api.{ok, failed}
use papercrate.Dict.{lookup}
use papercrate.Js.{end}
use papercrate.AssetCache.{
  Download, Asset, AssetManager, resolved, requested, resolve_asset_url, is_primary_satisfied,
  ensure_named, settle, inflight_key,
}
use papercrate.AssetCache.Laws.{entry_of, fetched_asset_served, forced_request_forgotten}

abbrev preview : Asset
preview = record { id = some "p"; download = none; url = none; expires_at = none; rest = end }

abbrev link : Download
link = record { url = "https://files"; expires_at = 900 }

abbrev fetched : Asset
fetched = record {
  id = some "p";
  download = some (some link);
  url = none;
  expires_at = none;
  rest = end;
}

abbrev begun : AssetManager
begun = record { fetcher = true; asset_cache = []; asset_inflight = []; next_request = 0 }

fetched_asset_served_example :
    (let old = or_else (lookup "p" begun.asset_cache) preview in
      let m' = (settle "d" "p" preview preview (ok (some fetched)) begun).0 in
      let (m'', answer) = ensure_named "d" "p" preview false 100 m' in
      (lookup (inflight_key "d" "p") m'.asset_inflight ≡ none)
      × (answer ≡ resolved (some (entry_of old preview fetched link)))
      × (resolve_asset_url (entry_of old preview fetched link) ≡ some "https://files")
      × (m''.asset_inflight ≡ m'.asset_inflight)
      × (m''.next_request ≡ begun.next_request))
fetched_asset_served_example =
    fetched_asset_served "d" "p" preview preview fetched preview link 100 begun refl refl refl refl
      (omega arith)

forced_request_forgotten_example :
    (let first = ensure_named "d" "p" preview false 100 begun in
      let second = ensure_named "d" "p" preview true 100 first.0 in
      let failing = settle "d" "p" preview preview failed second.0 in
      let third = ensure_named "d" "p" preview false 100 failing.0 in
      (first.1 ≡ requested 0) × (second.1 ≡ requested 1) × (third.1 ≡ requested 2))
unfolding lookup is_primary_satisfied resolve_asset_url
forced_request_forgotten_example =
    forced_request_forgotten "d" "p" preview 100 begun refl refl refl refl
