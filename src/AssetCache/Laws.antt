-- ===== src/AssetCache/Laws.antt =====
-- An asset that was fetched is answered from the cache, and what a forced request leaves.
use papercrate.Base.{
  ℕ, suc, ◌<◌, ◌≡◌, refl, ◌∙◌, String, Bool, Bool-cases, Option-cases, true, false, none, some,
  ◌==◌, ◌||◌, not, or_else, is_some, arith, eq_refl, inl, inr,
}
use papercrate.Api.{ok, failed}
use papercrate.Dict.{lookup, insert, erase}
use papercrate.Dict.Laws.{lookup-insert, lookup-erase}
use papercrate.AssetCache.{
  Download, Asset, AssetManager, resolved, requested, is_primary_satisfied, resolve_asset_url,
  resolve_asset_expires_at, combine, remember_asset, inflight_key, ensure_named, settle,
}

-- What the cache has of an asset after its fetch.
abbrev pub entry_of : Asset → Asset → Asset → Download → Asset
entry_of old asset fetched d = record (combine (combine old asset) fetched) {
  url = some d.url;
  expires_at = some d.expires_at;
}

abbrev stored : String → String → Asset → AssetManager → AssetManager
stored document_id id e m = record m {
  asset_inflight = erase (inflight_key document_id id) m.asset_inflight;
  asset_cache = insert id e m.asset_cache;
}

settled :
    (document_id id : String) (asset base fetched : Asset) (d : Download) (m : AssetManager)
    → (id == "") ≡ false
    → fetched.id ≡ some id
    → fetched.download ≡ some (some d)
    → (settle document_id id asset base (ok (some fetched)) m).0
      ≡ stored document_id id (entry_of (or_else (lookup id m.asset_cache) base) asset fetched d) m
unfolding settle remember_asset combine resolve_asset_url resolve_asset_expires_at
settled document_id id asset base fetched d m full own has = rw (own, has) (rw full refl)

ensure_served :
    (document_id id : String) (given e : Asset) (now : ℕ) (m : AssetManager)
    → lookup id m.asset_cache ≡ some e
    → is_primary_satisfied e now ≡ true
    → ensure_named document_id id given false now m ≡ (remember_asset (some e) m, resolved (some e))
unfolding ensure_named
ensure_served document_id id given e now m cached satisfied = rw cached (rw satisfied refl)

remember_kept :
    (e : Asset) (m : AssetManager)
    → ((remember_asset (some e) m).asset_inflight ≡ m.asset_inflight)
      × ((remember_asset (some e) m).next_request ≡ m.next_request)
unfolding remember_asset
remember_kept e m = elim (Option-cases e.id) [
  | inl out ↦ rw out (refl, refl)
  | inr (id, own) ↦ elim (Bool-cases (id == "")) [
    | inl blank ↦ rw own (rw blank (refl, refl))
    | inr full ↦ rw own (rw full (refl, refl))
  ]
]

-- The API answers the fetch of an asset with a URL, under the asset's own identifier: afterwards the
-- map of requests has no entry for the document and the asset, also where a later request for the two
-- is still out, and until the URL expires a call without force gives the entry that was made of what
-- was cached, given and fetched, with that URL, sends no request and leaves the map of requests.
pub fetched_asset_served :
    (document_id id : String) (asset base fetched given : Asset) (d : Download) (now : ℕ)
    (m : AssetManager)
    → (id == "") ≡ false
    → fetched.id ≡ some id
    → fetched.download ≡ some (some d)
    → (d.url == "") ≡ false
    → now < d.expires_at
    → (let old = or_else (lookup id m.asset_cache) base in
        let m' = (settle document_id id asset base (ok (some fetched)) m).0 in
        let (m'', answer) = ensure_named document_id id given false now m' in
        (lookup (inflight_key document_id id) m'.asset_inflight ≡ none)
        × (answer ≡ resolved (some (entry_of old asset fetched d)))
        × (resolve_asset_url (entry_of old asset fetched d) ≡ some d.url)
        × (m''.asset_inflight ≡ m'.asset_inflight)
        × (m''.next_request ≡ m.next_request))
unfolding combine
fetched_asset_served document_id id asset base fetched given d now m full own has url fresh =
    let old = or_else (lookup id m.asset_cache) base in
    let e = entry_of old asset fetched d in
    let m1 = stored document_id id e m in
    let same : (settle document_id id asset base (ok (some fetched)) m).0 ≡ m1 =
      settled document_id id asset base fetched d m full own has in
    let cached : lookup id m1.asset_cache ≡ some e =
      lookup-insert id id e m.asset_cache ∙ ground (arith, eq_refl id) in
    let fetched_url : resolve_asset_url e ≡ some d.url = unfold resolve_asset_url in rw has refl in
    let satisfied : is_primary_satisfied e now ≡ true =
      unfold is_primary_satisfied resolve_asset_url resolve_asset_expires_at in
      rw has (rw url (ground arith)) in
    let served = ensure_served document_id id given e now m1 cached satisfied in
    let (inflight, numbers) = remember_kept e m1 in
    let key = inflight_key document_id id in
    let released : lookup key m1.asset_inflight ≡ none =
      lookup-erase key key m.asset_inflight ∙ ground (arith, eq_refl key) in
    rw same (rw served (released, refl, fetched_url, inflight, numbers ∙ refl))

ensure_sends :
    (document_id id : String) (asset : Asset) (force : Bool) (now : ℕ) (m : AssetManager)
    → m.fetcher ≡ true
    → lookup id m.asset_cache ≡ none
    → is_primary_satisfied asset now ≡ false
    → (force || not (is_some (lookup (inflight_key document_id id) m.asset_inflight))) ≡ true
    → ensure_named document_id id asset force now m ≡ (
      record m {
        asset_inflight = insert (inflight_key document_id id) m.next_request m.asset_inflight;
        next_request = suc m.next_request;
      },
      requested m.next_request,
    )
unfolding ensure_named
ensure_sends document_id id asset true now m fetches empty stale free = simp fetches refl
ensure_sends document_id id asset false now m fetches empty stale free =
    let out : lookup (inflight_key document_id id) m.asset_inflight ≡ none =
      elim (Option-cases (lookup (inflight_key document_id id) m.asset_inflight)) [
        | inl none_out ↦ none_out
        | inr (k, found) ↦ absurd (ground (arith, free, found))
      ] in
    rw empty (rw stale (rw (out, ensure_named) (simp fetches refl)))

-- A stale asset of which nothing is cached or under way is asked for, then with force, and the first
-- request fails: the second, which is still out, is forgotten, so that a third call sends another
-- request where it should join the second.
pub forced_request_forgotten :
    (document_id id : String) (asset : Asset) (now : ℕ) (m : AssetManager)
    → m.fetcher ≡ true
    → lookup id m.asset_cache ≡ none
    → lookup (inflight_key document_id id) m.asset_inflight ≡ none
    → is_primary_satisfied asset now ≡ false
    → (let first = ensure_named document_id id asset false now m in
        let second = ensure_named document_id id asset true now first.0 in
        let failing = settle document_id id asset asset failed second.0 in
        let third = ensure_named document_id id asset false now failing.0 in
        (first.1 ≡ requested m.next_request)
        × (second.1 ≡ requested (suc m.next_request))
        × (third.1 ≡ requested (suc (suc m.next_request))))
forced_request_forgotten document_id id asset now m fetches empty idle stale =
    let key = inflight_key document_id id in
    let n = m.next_request in
    let m1 = record m { asset_inflight = insert key n m.asset_inflight; next_request = suc n } in
    let m2 = record m1 {
      asset_inflight = insert key (suc n) m1.asset_inflight;
      next_request = suc (suc n);
    } in
    let m3 = record m2 { asset_inflight = erase key m2.asset_inflight } in
    let one = ensure_sends document_id id asset false now m fetches empty stale (rw idle refl) in
    let two = ensure_sends document_id id asset true now m1 fetches empty stale refl in
    let failing : (settle document_id id asset asset failed m2).0 ≡ m3 = unfold settle in refl in
    let freed : lookup key m3.asset_inflight ≡ none =
      lookup-erase key key m2.asset_inflight ∙ ground (arith, eq_refl key) in
    let three =
      ensure_sends document_id id asset false now m3 fetches empty stale (rw freed refl) in
    rw one (rw two (rw failing (rw three (refl, refl, refl))))
