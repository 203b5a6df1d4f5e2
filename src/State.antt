-- ===== src/State.antt =====
-- `StateStore` (src/storage/states/state_store.py): a JSON object in memory, loaded once from its
-- file and written back after every change. The order of keys in the file (`sort_keys`) is not
-- modelled; nothing reads it. Nested objects that a caller passes in are values here: the sharing
-- of a dict between the caller and the store is not modelled.
pub mod Paths
pub mod Merge
pub mod Restart
mod Tests
use bokser_app.Prelude.{
  String, ◌≡◌, Bool, true, false, Option, none, some, List, [], ◌∷◌, if◌then◌else◌,
}
use bokser_app.Json.{Json, null, bool, num, float, str, arr, obj, Fields, end, field, get, put}

-- `_state` and `_loaded`.
pub record StateStore : Type 0 where
  pub state : Json
  pub loaded : Bool

-- The file, and whether `private_json` permits the read and the write.
pub record File : Type 0 where
  pub content : Option Json
  pub readable : Bool
  pub writable : Bool

abbrev pub new_store : StateStore
new_store = record { state = obj end; loaded = false }

abbrev pub content_or_empty : Option Json → Json
content_or_empty none = obj end
content_or_empty (some j) = j

abbrev pub is_object : Json → Bool
is_object (obj d) = true
is_object _ = false

-- `_load`: whether it returns, and the store after it.
unfoldable pub load : File → StateStore → Bool × StateStore
load f s =
    if s.loaded
    then (true, s)
    else if f.readable
    then (
      is_object (content_or_empty f.content),
      record {
        state = content_or_empty f.content;
        loaded = is_object (content_or_empty f.content);
      },
    )
    else (false, s)

abbrev pub fields_of : Json → Fields
fields_of (obj d) = d
fields_of _ = end

-- `_save_locked`: the file after it, and whether it returns.
abbrev pub save : StateStore → File → Bool × File
save s f = if f.writable then (true, record f { content = some s.state }) else (false, f)

-- A change of the fields in memory, then the save.
abbrev pub changed : (Fields → Fields) → StateStore → StateStore
changed g s = record s { state = obj (g (fields_of s.state)) }

-- A method that loads, changes the state and saves: whether it returns, the store and the file. The
-- change stays in memory where the save fails.
unfoldable pub change : (Fields → Fields) → File → StateStore → Bool × StateStore × File
unfolding load
change g f s =
    let (ok, s') = load f s in
    let (saved, f') = save (changed g s') f in
    if ok then (saved, changed g s', f') else (false, s', f)

-- `set`
unfoldable pub set : String → Json → File → StateStore → Bool × StateStore × File
unfolding change
set key value = change (put key value)

-- `deep_merge_dict`
unfoldable mutual
  pub deep_merge_dict : Fields → Fields → Fields
  deep_merge_dict target end = target
  deep_merge_dict target (field k v updates) =
      deep_merge_dict (put k (merge_value (get k target) v) target) updates

  -- The value that a key gets, from what the target has there.
  pub merge_value : Option Json → Json → Json
  merge_value (some (obj target)) (obj updates) = obj (deep_merge_dict target updates)
  merge_value old v = v

-- `update`, of a dict.
unfoldable pub update : Fields → File → StateStore → Bool × StateStore × File
unfolding change deep_merge_dict
update values = change (λ target. deep_merge_dict target values)

-- The walk of `get_path` from a value.
unfoldable pub walk : List String → Json → Json → Json
walk [] default current = current
walk (k ∷ path) default (obj d) = elim (get k d) [ none ↦ default | some v ↦ walk path default v ]
walk (k ∷ path) default _ = default

-- `get_path` on the loaded state.
unfoldable pub get_path : List String → Json → Json → Json
unfolding walk
get_path [] default state = default
get_path (k ∷ path) default state = walk (k ∷ path) default state

-- The object at a key on the way, which is made where there is none.
abbrev pub existing : Option Json → Fields
existing (some (obj d)) = d
existing _ = end

-- The writes of `set_path` at the first key and below.
unfoldable pub set_below : String → List String → Json → Fields → Fields
set_below k [] value d = put k value d
set_below k (j ∷ path) value d = put k (obj (set_below j path value (existing (get k d)))) d

-- `set_path`; the empty path is a `ValueError`.
unfoldable pub set_path : List String → Json → File → StateStore → Bool × StateStore × File
unfolding change set_below
set_path [] value f s = (false, s, f)
set_path (k ∷ path) value f s = change (set_below k path value) f s
