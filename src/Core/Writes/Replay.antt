-- ===== src/Core/Writes/Replay.antt =====
-- A request that is sent again: the answer of the first time, or a conflict where the request differs.
use codex_commons.Prelude.{◌≡◌, ◌≢◌, ◌⊎◌, refl, sym, ap, ◌∙◌, String, none, some, arith, inl, inr}
use codex_commons.Prelude.Table.{lookup, lookup-put}
use codex_commons.Prelude.Tests.{str_eq_iff, str_eq_refl}
use codex_commons.Prelude.Results.{ok, err}
use codex_commons.Core.Types.{Err, conflict, Database, RequestRow, WriteResult}
use codex_commons.Core.Commands.{Command, prepare}
use codex_commons.Core.Writes.{
  World, answers, Request, request_of, read_core_replay, locked_write, perform, write, write_result,
}
use codex_commons.Core.Writes.Stored.{IsStored, row_of, write_stored, open_eq_locked}
use codex_commons.Core.Writes.History.{Later, Later-keeps_request}

-- What a request that is on record is answered.
on_record :
    (db : Database) (q : Request) (row : RequestRow)
    → lookup q.key db.requests ≡ some row
    → q.operation ≡ row.operation
    → q.fingerprint ≡ row.payload_hash
    → read_core_replay none db q ≡ ok (some (write_result row))
unfolding read_core_replay
on_record db q row at op hash = ground (
  arith,
  str_eq_iff row.operation q.operation,
  str_eq_iff row.payload_hash q.fingerprint,
  op,
  hash,
  at,
)

off_record :
    (db : Database) (q : Request) (row : RequestRow)
    → lookup q.key db.requests ≡ some row
    → (q.operation ≢ row.operation) ⊎ (q.fingerprint ≢ row.payload_hash)
    → read_core_replay none db q ≡ err conflict
unfolding read_core_replay
off_record db q row at (inl differs) =
    ground (arith, at, str_eq_iff row.operation q.operation, differs)
off_record db q row at (inr differs) =
    ground (arith, at, str_eq_iff row.payload_hash q.fingerprint, differs)

-- A write meets the database at its first read, or first under the writer's lock when the record came
-- in between; the query by which it does so does not fail.
unfoldable pub Meets : World → Request → Database → Type 0
Meets world q db =
    ((world.before_err ≡ none) × (world.before ≡ db))
    ⊎ ((read_core_replay world.before_err world.before q ≡ ok none)
        × (world.begin_err ≡ none)
        × (world.lock_err ≡ none)
        × (world.locked_err ≡ none)
        × (world.locked ≡ db))

settled_answers :
    (world : World) (q : Request) (c : Command) (db : Database) (r : WriteResult)
    → Meets world q db
    → read_core_replay none db q ≡ ok (some r)
    → perform world q c ≡ answers (ok r)
unfolding Meets perform locked_write
settled_answers world q c db r (inl (fine, first)) h =
    rw
      (
        ap (λ x. read_core_replay x world.before q) fine
            ∙ ap (λ x. read_core_replay none x q) first
            ∙ h,
        perform,
      )
      refl
settled_answers world q c db r (inr (unread, begins, locks, fine, then_locked)) h =
    rw
      (
        unread,
        perform,
        open_eq_locked world q c begins locks,
        ap (λ x. read_core_replay x world.locked q) fine
            ∙ ap (λ x. read_core_replay none x q) then_locked
            ∙ h,
        locked_write,
      )
      refl

refused_answers :
    (world : World) (q : Request) (c : Command) (db : Database) (e : Err)
    → Meets world q db
    → read_core_replay none db q ≡ err e
    → perform world q c ≡ answers (err e)
unfolding Meets perform locked_write
refused_answers world q c db e (inl (fine, first)) h =
    rw
      (
        ap (λ x. read_core_replay x world.before q) fine
            ∙ ap (λ x. read_core_replay none x q) first
            ∙ h,
        perform,
      )
      refl
refused_answers world q c db e (inr (unread, begins, locks, fine, then_locked)) h =
    rw
      (
        unread,
        perform,
        open_eq_locked world q c begins locks,
        ap (λ x. read_core_replay x world.locked q) fine
            ∙ ap (λ x. read_core_replay none x q) then_locked
            ∙ h,
        locked_write,
      )
      refl

recorded_at :
    (hash : Command → String) (world : World) (c p : Command) (db db2 : Database)
    (s : IsStored world (request_of hash p) p db (write hash world c))
    → Later hash db db2
    → lookup (Request.key (request_of hash p)) db2.requests
      ≡ some (row_of (request_of hash p) s.written)
recorded_at hash world c p db db2 s later =
    Later-keeps_request hash db db2 (Request.key (request_of hash p))
      (row_of (request_of hash p) s.written) later
      (ap (lookup (Request.key (request_of hash p))) s.recorded
        ∙ lookup-put (Request.key (request_of hash p)) (Request.key (request_of hash p))
            (row_of (request_of hash p) s.written) (Database.requests world.locked)
        ∙ rw (str_eq_refl (Request.key (request_of hash p))) refl)

-- A write that committed is answered once and for all: whatever else of the eight writes commits in
-- between, the same request, sent again, changes nothing and gets the answer of the first time, be it
-- found at the first read or only under the writer's lock, by a query that does not fail.
pub write_again :
    (hash : Command → String) (first second : World) (c p c2 p2 : Command) (db db2 : Database)
    → (write hash first c).stored ≡ some db
    → Later hash db db2
    → prepare c ≡ some p
    → prepare c2 ≡ some p2
    → request_of hash p2 ≡ request_of hash p
    → Meets second (request_of hash p2) db2
    → write hash second c2 ≡ answers (write hash first c).answer
unfolding write
write_again hash first second c p c2 p2 db db2 stored later is_p is_p2 same meets =
    let (p3, is_p3, s) = write_stored hash first c db stored in
    let p3_is_p : p3 ≡ p = ground (arith, is_p, is_p3) in
    let same3 : request_of hash p2 ≡ request_of hash p3 =
      same ∙ sym (ap (request_of hash) p3_is_p) in
    let q = request_of hash p3 in
    let read : read_core_replay none db2 q ≡ ok (some (write_result (row_of q s.written))) =
      on_record db2 q (row_of q s.written) (recorded_at hash first c p3 db db2 s later) refl refl in
    let again =
      settled_answers second (request_of hash p2) p2 db2 (write_result (row_of q s.written)) meets
        (ap (read_core_replay none db2) same3 ∙ read) in
    rw (is_p2, write) again ∙ ap answers (sym s.answered)

-- A request identifier is good for one request: behind a write that committed, and any of the eight
-- writes after it, another write under the same key, of another operation or with another fingerprint,
-- that meets the record by a query that does not fail, is answered with a conflict and changes nothing.
pub write_other :
    (hash : Command → String) (first second : World) (c p c2 p2 : Command) (db db2 : Database)
    → (write hash first c).stored ≡ some db
    → Later hash db db2
    → prepare c ≡ some p
    → prepare c2 ≡ some p2
    → Request.key (request_of hash p2) ≡ Request.key (request_of hash p)
    → (Request.operation (request_of hash p2) ≢ Request.operation (request_of hash p))
      ⊎ (Request.fingerprint (request_of hash p2) ≢ Request.fingerprint (request_of hash p))
    → Meets second (request_of hash p2) db2
    → write hash second c2 ≡ answers (err conflict)
unfolding write
write_other hash first second c p c2 p2 db db2 stored later is_p is_p2 same differs meets =
    let (p3, is_p3, s) = write_stored hash first c db stored in
    let p3_is_p : p3 ≡ p = ground (arith, is_p, is_p3) in
    let row = row_of (request_of hash p3) s.written in
    let at : lookup (Request.key (request_of hash p2)) db2.requests ≡ some row =
      ap (λ k. lookup k db2.requests)
        (same ∙ sym (ap (λ x. Request.key (request_of hash x)) p3_is_p))
      ∙ recorded_at hash first c p3 db db2 s later in
    let other : (Request.operation (request_of hash p2) ≢ row.operation)
        ⊎ (Request.fingerprint (request_of hash p2) ≢ row.payload_hash) =
      elim differs [
        | inl o ↦ inl (λ x. o (x ∙ ap (λ y. Request.operation (request_of hash y)) p3_is_p))
        | inr f ↦ inr (λ x. f (x ∙ ap (λ y. Request.fingerprint (request_of hash y)) p3_is_p))
      ] in
    let refused =
      refused_answers second (request_of hash p2) p2 db2 conflict meets
        (off_record db2 (request_of hash p2) row at other) in
    rw (is_p2, write) refused
