-- ===== src/Lake/Envelope/RoundTrip.antt =====
-- What the loader reads of what the writer wrote.
use bokser_app.Prelude.{
  ◌||◌, str_eq, if◌then◌else◌, String, ◌≡◌, ◌≢◌, refl, true, none, some, arith, ◌∙◌,
}
use bokser_app.Prelude.Int.{pos}
use bokser_app.Json.{Json, num, arr, obj, Items, Fields, end, field, get, put, get-put}
use bokser_app.Lake.Names.{Unicode}
use bokser_app.Lake.Envelope.{
  count_items, record_count, spread, Written, safe_name, wrapped_with, wrapped_payload,
  normalize_json_records, all_objects, extract_json_records, checked_records,
}

-- A key that the caller's metadata does not have.
get-spread : (d more : Fields) (k : String) → get k more ≡ none → get k (spread d more) ≡ get k d
unfolding spread get
get-spread d end k h = refl
get-spread d (field j v more) k h =
    get-spread (put j v d) more k (ground arith) ∙ get-put j k v d ∙ ground arith

module _ (u : Unicode) (w : Written) (metadata : Fields) (source entity : String) where
  -- Reading a wrapped payload comes to the check of the entity's cleaned name, and to those on the
  -- payload alone.
  extract_wrapped :
      (expected : String) (payload : Json)
      → get "entity_name" metadata ≡ none
      → get "record_count" metadata ≡ none
      → extract_json_records expected (wrapped_with source entity w metadata payload) ≡ (
          if str_eq expected "" || str_eq entity expected
          then checked_records
              (some (num (pos (record_count payload))))
              (normalize_json_records (some payload))
          else none)
  unfolding extract_json_records wrapped_with get
  extract_wrapped expected payload e c =
      rw (get-spread _ metadata "entity_name" e, get-spread _ metadata "record_count" c)
        (ground arith)

  wrapped :
      (payload : Json)
      → safe_name u w.source_system ≡ some source
      → safe_name u w.entity_name ≡ some entity
      → wrapped_payload u w metadata payload ≡ some (wrapped_with source entity w metadata payload)
  unfolding wrapped_payload
  wrapped payload s n = rw (s, n, wrapped_payload) refl

  -- A list of objects is written whenever both names can be cleaned, whatever the caller's metadata.
  -- If that names neither the entity nor the count itself, a reader that expects no entity, or the
  -- cleaned name of the entity, gets the list back as it was, and a reader that expects any other name,
  -- be it the entity's own before the cleaning, is refused.
  pub extract_list :
      (expected : String) (items : Items)
      → safe_name u w.source_system ≡ some source
      → safe_name u w.entity_name ≡ some entity
      → get "entity_name" metadata ≡ none
      → get "record_count" metadata ≡ none
      → all_objects items ≡ true
      → (j : Json) × (wrapped_payload u w metadata (arr items) ≡ some j)
        × (extract_json_records expected j
            ≡ (if str_eq expected "" || str_eq entity expected then some items else none))
  extract_list expected items s n e c objects = (
    wrapped_with source entity w metadata (arr items),
    wrapped (arr items) s n,
    extract_wrapped expected (arr items) e c
        ∙ unfold normalize_json_records record_count in ground (arith, objects),
  )

  -- A batch of orders that is written as an object is counted as one record, so that, whatever entity
  -- the reader expects, a batch of any other number of orders is refused when it is read.
  pub orders_batch_refused :
      (expected : String) (d : Fields) (orders : Items)
      → safe_name u w.source_system ≡ some source
      → safe_name u w.entity_name ≡ some entity
      → get "entity_name" metadata ≡ none
      → get "record_count" metadata ≡ none
      → get "orders" d ≡ some (arr orders)
      → count_items orders ≢ 1
      → (j : Json) × (wrapped_payload u w metadata (obj d) ≡ some j)
        × (extract_json_records expected j ≡ none)
  orders_batch_refused expected d orders s n e c has many = (
    wrapped_with source entity w metadata (obj d),
    wrapped (obj d) s n,
    extract_wrapped expected (obj d) e c
        ∙ unfold normalize_json_records record_count in rw has (ground arith),
  )
