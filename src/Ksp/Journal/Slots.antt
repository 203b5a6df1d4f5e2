-- ===== src/Ksp/Journal/Slots.antt =====
-- How far apart the reserved request slots are.
use bokser_app.Prelude.{
  ℕ, ◌+◌, ◌-◌, ◌≤◌, Option, none, some, List, [], ◌∷◌, ltb, if◌then◌else◌, arith,
}
use bokser_app.Ksp.Journal.{Db, or_else, reserve_request_slot}

-- The times at which the requests go out that reserve at these times, one after the other: each
-- waits as it is told.
unfoldable pub send_times : ℕ → List ℕ → Db → List ℕ
unfolding reserve_request_slot
send_times interval [] db = []
send_times interval (now ∷ nows) db =
    let (wait, db') = reserve_request_slot interval now db in
    (now + wait) ∷ send_times interval nows db'

-- No time is before the bound, or less than an interval after the time before it.
abbrev pub SpacedFrom : ℕ → ℕ → List ℕ → Type 0
SpacedFrom interval lo [] = Unit
SpacedFrom interval lo (t ∷ ts) = (lo ≤ t) × SpacedFrom interval (t + interval) ts

lower :
    (interval lo hi : ℕ) (ts : List ℕ)
    → lo ≤ hi
    → SpacedFrom interval hi ts
    → SpacedFrom interval lo ts
lower interval lo hi [] le s = tt
lower interval lo hi (t ∷ ts) le s = (omega (arith, s.0), s.1)

-- Requests that reserve slots, by whatever processes and at whatever clock readings, go out at least
-- the interval apart, and none before the slot that the journal held.
pub reserve_request_slot-SpacedFrom :
    (interval : ℕ) (nows : List ℕ) (db : Db)
    → SpacedFrom interval (or_else db.next_at 0) (send_times interval nows db)
unfolding send_times reserve_request_slot
reserve_request_slot-SpacedFrom interval [] db = tt
reserve_request_slot-SpacedFrom interval (now ∷ nows) db =
    let (wait, db') = reserve_request_slot interval now db in
    (
      first db.next_at,
      lower interval (now + wait + interval) (or_else db'.next_at 0) (send_times interval nows db')
          (slot_kept db.next_at) (reserve_request_slot-SpacedFrom interval nows db'),
    )
  where
    first :
        (o : Option ℕ)
        → let slot = or_else o now in
          or_else o 0 ≤ now + ((if ltb now slot then slot else now) - now)
    first none = omega arith
    first (some t) = ground arith

    slot_kept :
        (o : Option ℕ)
        → let slot = or_else o now in
          let reserved = if ltb now slot then slot else now in
          now + (reserved - now) + interval ≤ reserved + interval
    slot_kept none = ground arith
    slot_kept (some t) = ground arith
