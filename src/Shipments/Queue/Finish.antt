-- ===== src/Shipments/Queue/Finish.antt =====
-- What `_finish_attempt` leaves behind when SOS has accepted the shipment.
use bokser_app.Prelude.{ℕ, ◌≡◌, Bool, true, false, none, some, Option, arith, ◌⊎◌, sym, subst, ◌&&◌}
use bokser_app.Shipments.Queue.{
  Row, Db, sent, reconcile, find, conclude, is_acknowledged, held_for_reconciliation, Message,
  finish_attempt, hash_eq, is_processing, raise_if_not_sent,
}
use bokser_app.Shipments.Queue.Find.{find-finish, finished, find_id}

-- The row is the claimed one still: in processing, with the hash that the claim read.
abbrev pub is_unchanged : Row → Row → Bool
is_unchanged c r = is_processing r.status && hash_eq r.payload_hash c.payload_hash

raised_by_finish :
    (c r : Row) (n : ℕ) (db : Db)
    → find c.id db.rows ≡ some r
    → (finish_attempt c sent none (some n) db).0
      ≡ raise_if_not_sent sent (finished c sent none (some n) r)
unfolding finish_attempt finished
raised_by_finish c r n db h = rw (h, finish_attempt) (ground arith)

-- The two ends of a completion that SOS has accepted.
abbrev pub Completed : Row → Row → ℕ → Option Message → Row → Type 0
Completed c r n e r' =
    ((e ≡ none)
      × (r'.status ≡ sent)
      × ((is_unchanged c r ≡ true) ⊎ (is_acknowledged (some n) r ≡ true)))
    ⊎ ((e ≡ some held_for_reconciliation)
        × (r'.status ≡ reconcile)
        × (is_unchanged c r ≡ false)
        × (is_acknowledged (some n) r ≡ false))

finished_accepted :
    (c r : Row) (n : ℕ)
    → let r' = finished c sent none (some n) r in
      (r'.sos_shipment_id ≡ some n) × Completed c r n (raise_if_not_sent sent r') r'
unfolding finished conclude
finished_accepted c r n = ground (arith)

-- When SOS has accepted a shipment, the completion of its row, where the row is there, always
-- records the shipment id. Either the call returns and the row is marked sent, and it is then still
-- processing with the claimed hash or was marked sent with this id before; or the call raises after
-- its commit and the row is held for reconciliation, and it was neither.
pub accepted_is_recorded :
    (c r : Row) (n : ℕ) (db : Db)
    → find c.id db.rows ≡ some r
    → let (e, db') = finish_attempt c sent none (some n) db in
      (r' : Row) × (find c.id db'.rows ≡ some r')
      × (r'.sos_shipment_id ≡ some n)
      × Completed c r n e r'
accepted_is_recorded c r n db h =
    let r' : Row = finished c sent none (some n) r in
    let parts = finished_accepted c r n in
    (
      r',
      rw find-finish (rw h (ground (arith, find_id c.id db.rows r h))),
      parts.0,
      subst (λ e. Completed c r n e r') (sym (raised_by_finish c r n db h)) parts.1,
    )
