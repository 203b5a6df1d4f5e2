-- ===== src/State/Tests.antt =====
-- A small state, its paths and its file.
use bokser_app.Prelude.{
  String, ◌≡◌, ◌≢◌, refl, true, false, none, some, [], ◌∷◌, inl, inr, arith, eq_iff,
}
use bokser_app.Prelude.Int.{pos}
use bokser_app.Json.{null, num, str, arr, obj, nil, end, field, Fields, get, put}
use bokser_app.State.{File, new_store, load, change, deep_merge_dict, set_path, set_below, get_path}
use bokser_app.State.Paths.{get_path-set_self, get_path-set_apart}
use bokser_app.State.Merge.{merged, nested_merge}
use bokser_app.State.Restart.{set_path_persists, bad_file_kept}

abbrev cursors : Fields
cursors = field "orders" (obj (field "since" (str "monday") (field "page" (num (pos 3)) end))) end

abbrev newer : Fields
newer = field "orders" (obj (field "since" (str "friday") end)) (field "items" null end)

cursors_merged :
    deep_merge_dict cursors newer
    ≡ field "orders"
        (obj (field "since" (str "friday") (field "page" (num (pos 3)) end)))
        (field "items" null end)
unfolding deep_merge_dict get put
cursors_merged = refl

abbrev state_file : File
state_file = record { content = some (obj cursors); readable = true; writable = true }

abbrev list_file : File
list_file = record { content = some (arr nil); readable = true; writable = true }

get_path-set_self_example :
    get_path
      ("orders" ∷ "since" ∷ "day" ∷ [])
      null
      (obj (set_below "orders" ("since" ∷ "day" ∷ []) (num (pos 5)) cursors))
    ≡ num (pos 5)
get_path-set_self_example =
    get_path-set_self "orders" ("since" ∷ "day" ∷ []) (num (pos 5)) null cursors

since_is_not_page : ◌≢◌ {A = String} "since" "page"
since_is_not_page = ground (arith, eq_iff "since" "page")

get_path-set_apart_example :
    get_path
      ("orders" ∷ "page" ∷ [])
      null
      (obj (set_below "orders" ("since" ∷ []) (str "friday") cursors))
    ≡ get_path ("orders" ∷ "page" ∷ []) null (obj cursors)
get_path-set_apart_example =
    get_path-set_apart "orders" ("since" ∷ []) "orders" ("page" ∷ []) (str "friday") null cursors
      (inr (refl, since_is_not_page))

nested_merge_example :
    (inner : Fields) × (get "orders" (deep_merge_dict cursors newer) ≡ some (obj inner))
    × (get "page" inner ≡ merged (some (num (pos 3))) none)
unfolding get
nested_merge_example =
    nested_merge cursors newer (field "since" (str "monday") (field "page" (num (pos 3)) end))
      (field "since" (str "friday") end) "orders" "page" (refl, (refl, tt)) (refl, tt) refl refl

set_path_persists_example :
    let (ok, s', f') = set_path ("orders" ∷ "page" ∷ []) (num (pos 4)) state_file new_store in
    (ok ≡ true)
    × ((load f' new_store).0 ≡ true)
    × (get_path ("orders" ∷ "page" ∷ []) null (load f' new_store).1.state ≡ num (pos 4))
unfolding load
set_path_persists_example =
    set_path_persists "orders" ("page" ∷ []) (num (pos 4)) null state_file new_store refl refl refl

bad_file_kept_example :
    let (ok, s', f') = change (put "page" null) list_file new_store in
    (ok ≡ false) × (f' ≡ list_file) × (s'.loaded ≡ false)
bad_file_kept_example = bad_file_kept (put "page" null) list_file new_store refl (inl refl)
