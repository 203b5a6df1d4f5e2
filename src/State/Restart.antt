-- ===== src/State/Restart.antt =====
-- What a new process reads from the file that a change has written.
use bokser_app.Prelude.{String, ◌≡◌, true, false, List, ◌∷◌, arith, ap, ◌∙◌, ◌⊎◌}
use bokser_app.Json.{Json, obj, Fields}
use bokser_app.State.{
  StateStore, File, new_store, content_or_empty, is_object, fields_of, load, change, set_path,
  set_below, get_path,
}
use bokser_app.State.Paths.{get_path-set_self}

-- A change that is written: the call returns, the file holds the changed state, and a new process
-- that can read the file loads that very state.
change_persists :
    (g : Fields → Fields) (f : File) (s : StateStore)
    → (load f s).0 ≡ true
    → f.writable ≡ true
    → f.readable ≡ true
    → let (ok, s', f') = change g f s in
      (ok ≡ true)
      × ((load f' new_store).0 ≡ true)
      × ((load f' new_store).1.state ≡ obj (g (fields_of (load f s).1.state)))
unfolding change load
change_persists g f s ok w r = ground arith

-- Where the state can be loaded and written, `set_path` returns, and a new process that loads the file
-- reads the value at the path.
pub set_path_persists :
    (k : String) (path : List String) (value default : Json) (f : File) (s : StateStore)
    → (load f s).0 ≡ true
    → f.writable ≡ true
    → f.readable ≡ true
    → let (ok, s', f') = set_path (k ∷ path) value f s in
      (ok ≡ true)
      × ((load f' new_store).0 ≡ true)
      × (get_path (k ∷ path) default (load f' new_store).1.state ≡ value)
unfolding set_path
set_path_persists k path value default f s ok w r =
    let p = change_persists (set_below k path value) f s ok w r in
    (
      p.0,
      p.1,
      ap (get_path (k ∷ path) default) p.2
          ∙ get_path-set_self k path value default (fields_of (load f s).1.state),
    )

-- A file that holds something other than an object, or that may not be read, is never overwritten:
-- every change of a store that has not loaded raises and leaves the file as it is.
pub bad_file_kept :
    (g : Fields → Fields) (f : File) (s : StateStore)
    → s.loaded ≡ false
    → (is_object (content_or_empty f.content) ≡ false) ⊎ (f.readable ≡ false)
    → let (ok, s', f') = change g f s in (ok ≡ false) × (f' ≡ f) × (s'.loaded ≡ false)
unfolding change load
bad_file_kept g f s fresh bad = ground arith
