-- ===== src/Sos/Tests.antt =====
-- A load of three records, one of which cannot be mapped, and its repetition.
use Prim.Native.Nat.{max}
use bokser_app.Prelude.{ℕ, ◌≡◌, refl, Option, none, some, List, [], ◌∷◌}
use bokser_app.Lake.Manifest.{partial}
use bokser_app.Sos.Load.{Data, Table, no_counts, token_of, load_one, load_all, file_status}
use bokser_app.Sos.Load.Versions.{version, newest, highest_version_wins}

abbrev old_order : Data ℕ
old_order = record { id = 7; sync_token = some 2; body = 20 }

abbrev new_order : Data ℕ
new_order = record { id = 7; sync_token = some 3; body = 30 }

abbrev no_table : Table ℕ
no_table i = none

abbrev batch : List (Option (Data ℕ))
batch = some new_order ∷ none ∷ some old_order ∷ []

batch_counts :
    (load_all batch (no_table, no_counts)).1
    ≡ record { loaded_count = 1; skipped_count = 1; failed_count = 1 }
unfolding load_all load_one
batch_counts = refl

batch_partial : file_status 3 1 1 ≡ partial
unfolding file_status
batch_partial = refl

highest_version_wins_example :
    version (token_of ((load_all batch (no_table, no_counts)).0 7)) ≡ max 0 (newest 7 batch)
highest_version_wins_example =
    highest_version_wins 7 batch no_table no_counts (refl, (tt, (refl, tt)))
