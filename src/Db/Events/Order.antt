-- ===== src/Db/Events/Order.antt =====
-- What the streams of lcloud/api/json_db.py deliver.
use mathlib.Core.Path.{subst}
use mathlib.Core.List.{append_assoc, append-nil}
use lcloud.Base.{
  ℕ, zero, suc, ◌≤◌, ◌≡◌, refl, sym, ap, ◌∙◌, Bool, true, false, ◌&&◌, none, some, List, [], ◌∷◌,
  ◌++◌, arith, ltb, ◌==◌, if◌then◌else◌, keep_if, take, length, keep_if-append,
}
use lcloud.Base.Ascending.{
  Above, last_key, sort_by-Above, Above-keep_if, Above-take, keep_if-last_key, last_key-le,
  take-drop,
}
use lcloud.Db.Rows.{JsonCollection, JsonOperation, Db}
use lcloud.Db.Errors.{read, ok}
use lcloud.Db.Access.{Caller, can_access}
use lcloud.Db.Store.{find_collection_by_id}
use lcloud.Db.Events.{
  is_shown, events_after, poll, SseFrame, change, keepalive, changes, turn_frames, stream_events,
  event_stream_batch_limit,
}

abbrev pub op_id : JsonOperation → ℕ
op_id o = o.id

-- The operations of the turn_frames.
abbrev pub delivered : List SseFrame → List JsonOperation
delivered [] = []
delivered (change o ∷ fs) = o ∷ delivered fs
delivered (keepalive ∷ fs) = delivered fs

-- The operations after an id that a test passes.
abbrev pub after_id : (JsonOperation → Bool) → ℕ → List JsonOperation → List JsonOperation
after_id p last ops = keep_if (λ o. ltb last (op_id o) && p o) ops

delivered-changes :
    (rows : List JsonOperation) (rest : List SseFrame)
    → delivered (changes rows rest) ≡ rows ++ delivered rest
delivered-changes [] rest = refl
delivered-changes (o ∷ rows) rest = ap (◌∷◌ o) (delivered-changes rows rest)

delivered-turn_frames :
    (rows : List JsonOperation) (rest : List SseFrame)
    → delivered (turn_frames rows rest) ≡ rows ++ delivered rest
delivered-turn_frames [] rest = refl
delivered-turn_frames (o ∷ rows) rest = delivered-changes (o ∷ rows) rest

Above-after_id :
    (p : JsonOperation → Bool) (last m : ℕ) (ops : List JsonOperation)
    → Above op_id m ops
    → Above op_id last (after_id p last ops)
Above-after_id p last m [] h = tt
Above-after_id p last m (o ∷ ops) h = ground (
  arith,
  Above-after_id p last (op_id o) ops h.1,
  Above-keep_if op_id (λ x. ltb last (op_id x) && p x) (op_id o) ops h.1,
)

after_id-twice :
    (p : JsonOperation → Bool) (k l : ℕ) (ops : List JsonOperation)
    → k ≤ l
    → keep_if (λ o. ltb l (op_id o)) (after_id p k ops) ≡ after_id p l ops
after_id-twice p k l [] h = refl
after_id-twice p k l (o ∷ ops) h = ground (arith, after_id-twice p k l ops h)

take-append :
    {A : Type 0} (n : ℕ) (xs ys : List A) → take n xs ≡ take (length (take n xs)) (xs ++ ys)
take-append zero xs ys = refl
take-append (suc n) [] ys = refl
take-append (suc n) (x ∷ xs) ys = ap (◌∷◌ x) (take-append n xs ys)

-- The next rows, and what is after them, are what was after the ones before.
next_rows :
    (p : JsonOperation → Bool) (n last : ℕ) (ops new : List JsonOperation)
    → Above op_id 0 (ops ++ new)
    → let rows = take n (after_id p last ops) in
      rows ++ after_id p (last_key op_id last rows) (ops ++ new) ≡ after_id p last (ops ++ new)
next_rows p n last ops new h =
    let all = after_id p last (ops ++ new) in
    let rows = take n (after_id p last ops) in
    let k = length rows in
    let above : Above op_id last all = Above-after_id p last 0 (ops ++ new) h in
    let split : all ≡ after_id p last ops ++ after_id p last new =
      keep_if-append (λ o. ltb last (op_id o) && p o) ops new in
    let first : rows ≡ take k all =
      take-append n (after_id p last ops) (after_id p last new) ∙ ap (take k) (sym split) in
    let le : last ≤ last_key op_id last (take k all) =
      last_key-le op_id last (take k all) (Above-take op_id k last all above) in
    ap (λ (r : List JsonOperation). r ++ after_id p (last_key op_id last r) (ops ++ new)) first
    ∙ ap (λ (r : List JsonOperation). take k all ++ r)
        (sym (after_id-twice p last (last_key op_id last (take k all)) (ops ++ new) le)
          ∙ keep_if-last_key op_id k last all above)
    ∙ take-drop k all

-- The tables of a turn: the log is the start of the later one, the caller may read the collection, and
-- it is shown the operations that a test passes.
pub record Seen (caller : Caller) (c : ℕ) (p : JsonOperation → Bool) (log : List JsonOperation)
    (db : Db) : Type 0 where
  pub new : List JsonOperation
  pub starts : log ≡ db.operations ++ new
  pub coll : JsonCollection
  pub found : find_collection_by_id c db ≡ some coll
  pub may_read : can_access coll caller read none ≡ true
  pub shown : (o : JsonOperation) → (o.collection_id == c && is_shown coll caller o) ≡ p o

abbrev pub AllSeen : Caller → ℕ → (JsonOperation → Bool) → List JsonOperation → List Db → Type 0
AllSeen caller c p log [] = Unit {0}
AllSeen caller c p log (db ∷ dbs) = Seen caller c p log db × AllSeen caller c p log dbs

keep_if-same :
    (f g : JsonOperation → Bool) (ops : List JsonOperation)
    → ((o : JsonOperation) → f o ≡ g o)
    → keep_if f ops ≡ keep_if g ops
keep_if-same f g [] h = refl
keep_if-same f g (o ∷ ops) h = rw (h o, keep_if-same f g ops h) refl

Above-start :
    (m : ℕ) (ops new : List JsonOperation) → Above op_id m (ops ++ new) → Above op_id m ops
Above-start m [] new h = tt
Above-start m (o ∷ ops) new h = (h.0, Above-start (op_id o) ops new h.1)

poll-Seen :
    (caller : Caller) (c last : ℕ) (p : JsonOperation → Bool) (log : List JsonOperation) (db : Db)
    → Above op_id 0 log
    → Seen caller c p log db
    → poll caller c last db ≡ ok (take event_stream_batch_limit (after_id p last db.operations))
unfolding poll events_after
poll-Seen caller c last p log db h s =
    rw (s.found, poll, s.may_read)
      (ap (λ (r : List JsonOperation). ok (take event_stream_batch_limit r))
        (ap
            (keep_if
              (λ o. ltb last (op_id o) && (o.collection_id == c && is_shown s.coll caller o)))
            (sort_by-Above op_id 0 db.operations
              (Above-start 0 db.operations s.new (subst (Above op_id 0) s.starts h)))
          ∙ keep_if-same _ _ db.operations (λ o. ap (λ b. ltb last (op_id o) && b) (s.shown o))))

-- The turns of a stream see tables that are each an earlier state of one log, whose ids ascend; each finds
-- the collection, which the caller may read, and shows the caller the same operations of it. What the
-- stream delivers from an id on, with or without `once`, is a start of what the log has of these
-- operations after that id: none is left out, sent twice or out of order, however many come at a
-- time and between turns.
pub stream_events-start :
    (caller : Caller) (c : ℕ) (once : Bool) (last : ℕ) (p : JsonOperation → Bool)
    (log : List JsonOperation) (dbs : List Db)
    → Above op_id 0 log
    → AllSeen caller c p log dbs
    → (rest : List JsonOperation) × (delivered (stream_events caller c once last dbs) ++ rest
        ≡ after_id p last log)
unfolding stream_events
stream_events-start caller c once last p log [] h seen = (after_id p last log, refl)
stream_events-start caller c once last p log (db ∷ dbs) h (s, seen) =
    rw (poll-Seen caller c last p log db h s, stream_events)
      (after once (stream_events-start caller c once (last_key op_id last rows) p log dbs h seen))
  where
    rows : List JsonOperation
    rows = take event_stream_batch_limit (after_id p last db.operations)

    joined : rows ++ after_id p (last_key op_id last rows) log ≡ after_id p last log
    joined =
        subst (λ l. rows ++ after_id p (last_key op_id last rows) l ≡ after_id p last l)
          (sym s.starts)
          (next_rows p event_stream_batch_limit last db.operations s.new
            (subst (Above op_id 0) s.starts h))

    after :
        (b : Bool)
        → (rest : List JsonOperation) × (delivered
                (stream_events caller c once (last_key op_id last rows) dbs)
              ++ rest
            ≡ after_id p (last_key op_id last rows) log)
        → (rest : List JsonOperation) × (delivered (
                if b
                then changes rows []
                else turn_frames rows (stream_events caller c once (last_key op_id last rows) dbs))
              ++ rest
            ≡ after_id p last log)
    after true (rest, e) = (
      after_id p (last_key op_id last rows) log,
      ap (λ (l : List JsonOperation). l ++ after_id p (last_key op_id last rows) log)
            (delivered-changes rows [] ∙ append-nil rows)
          ∙ joined,
    )
    after false (rest, e) = (
      rest,
      ap (λ (l : List JsonOperation). l ++ rest)
            (delivered-turn_frames rows
              (stream_events caller c once (last_key op_id last rows) dbs))
          ∙ append_assoc rows _ rest
          ∙ ap (λ (l : List JsonOperation). rows ++ l) e
          ∙ joined,
    )
