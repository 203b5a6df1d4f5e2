-- ===== src/Ksp/Worker/Safety/Responses.antt =====
-- No response of the gateway makes an order ready.
use bokser_app.Prelude.{String, refl, Option, none, some, inl, inr, Bool-cases}
use bokser_app.Json.{Json, null, bool, num, float, str, arr, obj, Fields, get}
use bokser_app.Lake.Envelope.{is_text}
use bokser_app.Ksp.Journal.{Db, uncertain, pending, accepted}
use bokser_app.Ksp.Worker.{
  accept_status, accept_id, accept_response, accept_tracked, unexpected, text_of, nonnull,
  tracked_response,
}
use bokser_app.Ksp.Worker.Safety.{Moved}

accept_status-Moved :
    (code : String) (status : Option Json) (o : String) (l : Option Json) (db : Db)
    → Moved code db (accept_status code status o l db).1
accept_status-Moved code status o l db = elim (Bool-cases (is_text "sent" status)) [
  | inl a ↦ rw a (inr (accepted, some o, l, none, refl, refl))
  | inr a ↦ elim (Bool-cases (is_text "fulfilled" status)) [
    | inl b ↦ rw (a, b) (inr (accepted, some o, l, none, refl, refl))
    | inr b ↦ elim (Bool-cases (is_text "received" status)) [
      | inl c ↦ rw (a, b, c) (inr (pending, some o, none, none, refl, refl))
      | inr c ↦
          rw (a, b, c) (inr (uncertain, some o, none, some "Unverified gateway status", refl, refl))
    ]
  ]
]

unexpected-Moved : (code : String) (db : Db) → Moved code db (unexpected code db).1
unexpected-Moved code db =
    inr (uncertain, none, none, some "Unexpected submission response", refl, refl)

accept_id-Moved :
    (code : String) (d : Fields) (o : Option String) (db : Db)
    → Moved code db (accept_id code d o db).1
accept_id-Moved code d none db = inl refl
accept_id-Moved code d (some o) db =
    accept_status-Moved code (get "status" d) o (nonnull (get "logiwaOrderId" d)) db

pub accept_response-Moved :
    (code : String) (r : Json) (db : Db) → Moved code db (accept_response code r db).1
unfolding accept_response
accept_response-Moved code (obj d) db = elim (Bool-cases (is_text code (get "code" d))) [
  | inl own ↦ rw own (accept_id-Moved code d (text_of (get "orderId" d)) db)
  | inr other ↦ rw other (unexpected-Moved code db)
]
accept_response-Moved code null db = unexpected-Moved code db
accept_response-Moved code (bool b) db = unexpected-Moved code db
accept_response-Moved code (num n) db = unexpected-Moved code db
accept_response-Moved code (float t) db = unexpected-Moved code db
accept_response-Moved code (str t) db = unexpected-Moved code db
accept_response-Moved code (arr x) db = unexpected-Moved code db

pub accept_tracked-Moved :
    (code o : String) (r : Json) (db : Db) → Moved code db (accept_tracked code o r db).1
accept_tracked-Moved code o (obj d) db = elim (Bool-cases (is_text o (get "orderId" d))) [
  | inl own ↦ rw own (accept_response-Moved code (tracked_response code o (get "status" d)) db)
  | inr other ↦ rw other (inl refl)
]
accept_tracked-Moved code o null db = inl refl
accept_tracked-Moved code o (bool b) db = inl refl
accept_tracked-Moved code o (num n) db = inl refl
accept_tracked-Moved code o (float t) db = inl refl
accept_tracked-Moved code o (str t) db = inl refl
accept_tracked-Moved code o (arr x) db = inl refl
