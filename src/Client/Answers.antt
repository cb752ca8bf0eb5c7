-- ===== src/Client/Answers.antt =====
-- What the functions of the API make of the data of an answer: lists, tenants, downloads and the
-- contents of the trash (frontend/src/lib/api/apiClient.ts). `Number(v)`, where it is finite, is a
-- parameter.
use papercrate.Base.{
  Bool-cases, Option, Option-cases, ap, arith, if◌then◌else◌, inl, inr, none, some, sym, ◌∙◌, ◌≡◌,
  ℕ,
}
use papercrate.Js.{
  Fields, Items, Value, array, elements, end, field, fields_of, get, is_array, nil, number, spread,
  text, truthy,
}

-- `Array.isArray(data) ? data : []`: `listDocuments`, `getFolderTree`, `listTags`,
-- `listCorrespondents`, `listCapabilitySets`, `listCapabilities`, `listApiTokens`, `listPasskeys`
-- and `listTenantUsers`
unfoldable pub list_or_empty : Value → Items
list_or_empty (array i xs) = xs
list_or_empty _ = nil

-- `listTenants`
unfoldable pub list_tenants : Value → Items
unfolding list_or_empty
list_tenants d = if is_array d then elements d else list_or_empty (get "tenants" (fields_of d))

-- the path and the query of `listFolderContents`: the trash is a list of documents by status
unfoldable pub trash_params : Fields → Fields
trash_params params = spread (field "status" (text "deleted") end) params

-- `{ documents: docs, subfolders: [] }`, with the identities of its new objects
unfoldable pub trash_contents : ℕ → ℕ → ℕ → Value → Fields
unfolding list_or_empty
trash_contents documents subfolders empty data_value =
    field "documents" (if is_array data_value then data_value else array empty nil)
      (field "subfolders" (array subfolders nil) end)

module _ (finite : Value → Option ℕ) where
  -- `normalizeDownload`: no download without an address and a time
  unfoldable pub normalize_download : Fields → Option Fields
  normalize_download input =
      if truthy (get "url" input)
      then elim (finite (get "expires_at" input)) [
        | none ↦ none
        | some expires ↦
            if truthy (number expires)
            then some (field "url" (get "url" input) (field "expires_at" (number expires) end))
            else none
      ]
      else none

  -- A download that was normalized is left as it is.
  pub normalize_download-normalize_download :
      (input output : Fields)
      → ((v : Value) (k : ℕ) → finite v ≡ some k → finite (number k) ≡ some k)
      → normalize_download input ≡ some output
      → normalize_download output ≡ some output
  unfolding normalize_download get
  normalize_download-normalize_download input output numbers e =
      elim (Bool-cases (truthy (get "url" input))) [
        | inr missing ↦ absurd (ground arith)
        | inl url ↦ elim (Option-cases (finite (get "expires_at" input))) [
          | inl invalid ↦ absurd (ground arith)
          | inr (expires, valid) ↦ elim (Bool-cases (truthy (number expires))) [
            | inr zero_time ↦ absurd (ground arith)
            | inl timed ↦
                let again : finite (number expires) ≡ some expires = numbers _ expires valid in
                let built : Fields =
                  field "url" (get "url" input) (field "expires_at" (number expires) end) in
                let same : built ≡ output = ground arith in
                let fixed : normalize_download built ≡ some built = ground (arith, again) in
                ap normalize_download (sym same) ∙ fixed ∙ ap some same
          ]
        ]
      ]
