-- ===== src/Session/Orchestrator/History.antt =====
-- Histories of an orchestrator: what holds in every one, and what a cancellation leaves behind.
use file_recovery_engine.Prelude.{
  ℕ, ◌≡◌, refl, sym, ap, ◌∙◌, true, false, Option, none, some, [], String, inl, inr, Bool-cases,
}
use file_recovery_engine.Session.Maps.{upsert, find-upsert, find-upsert_other}
use file_recovery_engine.Session.Orchestrator.{
  SessionRecord, Sessions, same_id, same_id_iff, get, new_record, start_session, change_record,
  with_checkpoint, with_cancel, checkpoint, cancel,
}
use mathlib.Core.Option.{some-injective}
use mathlib.Core.Path.{subst}

-- One call of the orchestrator.
pub data Step (sessions : Sessions) : Sessions → Type 0 where
  started : (now : ℕ) (id : String) → Step sessions (start_session now id sessions).0
  checkpointed : (now : ℕ) (id mark : String) → Step sessions (checkpoint now id mark sessions).0
  canceled : (now : ℕ) (id : String) → Step sessions (cancel now id sessions).0

-- The states that calls lead to.
pub data Reached : Sessions → Type 0 where
  empty : Reached []
  after : (sessions next : Sessions) → Reached sessions → Step sessions next → Reached next

-- Every record carries the identifier that it is kept under.
abbrev pub Filed : Sessions → Type 0
Filed sessions =
    (id : String) (r : SessionRecord) → get id sessions ≡ some r → r.state.session_id ≡ id

get-upsert :
    (id : String) (change : Option SessionRecord → SessionRecord) (sessions : Sessions)
    → get id (upsert same_id id change sessions) ≡ some (change (get id sessions))
unfolding get
get-upsert id change sessions = find-upsert same_id same_id_iff id change sessions

get-upsert_other :
    (id other : String) (change : Option SessionRecord → SessionRecord) (sessions : Sessions)
    → same_id other id ≡ false
    → get other (upsert same_id id change sessions) ≡ get other sessions
unfolding get
get-upsert_other id other change sessions h =
    find-upsert_other same_id same_id_iff id other change sessions h

upsert-Filed :
    (id : String) (r : SessionRecord) (sessions : Sessions)
    → r.state.session_id ≡ id
    → Filed sessions
    → Filed (upsert same_id id (λ old. r) sessions)
upsert-Filed id r sessions h filed other r' e = elim (Bool-cases (same_id other id)) [
  | inl same ↦
      let equal : other ≡ id = (same_id_iff other id).0 same in
      let found : some r ≡ some r' =
        sym (get-upsert id (λ old. r) sessions)
        ∙ subst (λ k. get k (upsert same_id id (λ old. r) sessions) ≡ some r') equal e in
      ap (λ x. x.state.session_id) (sym (some-injective _ _ found)) ∙ h ∙ sym equal
  | inr differs ↦ filed other r' (sym (get-upsert_other id other (λ old. r) sessions differs) ∙ e)
]

change_record-Filed :
    (id : String) (o : Option SessionRecord) (change : SessionRecord → SessionRecord)
    (sessions : Sessions)
    → ((r : SessionRecord) → (change r).state.session_id ≡ r.state.session_id)
    → get id sessions ≡ o
    → Filed sessions
    → Filed (change_record id o change sessions).0
unfolding change_record
change_record-Filed id none change sessions h e filed = filed
change_record-Filed id (some r) change sessions h e filed =
    upsert-Filed id (change r) sessions (h r ∙ filed id r e) filed

Step-Filed : (sessions next : Sessions) → Step sessions next → Filed sessions → Filed next
unfolding start_session checkpoint cancel
Step-Filed sessions next (started now id) filed =
    upsert-Filed id (new_record now id) sessions refl filed
Step-Filed sessions next (checkpointed now id mark) filed =
    change_record-Filed id (get id sessions) (with_checkpoint now mark) sessions (λ r. refl) refl
      filed
Step-Filed sessions next (canceled now id) filed =
    change_record-Filed id (get id sessions) (with_cancel now) sessions (λ r. refl) refl filed

-- In every state that calls lead to, a session that is found carries the identifier that it was
-- asked for by.
pub Reached-Filed : (sessions : Sessions) → Reached sessions → Filed sessions
Reached-Filed sessions empty = λ id r e. absurd (unfold get in cc e)
Reached-Filed sessions (after before next reached step) =
    Step-Filed before next step (Reached-Filed before reached)

-- The state `last` follows by calls none of which starts the session `id`.
pub data Unstarted (id : String) (last : Sessions) : Sessions → Type 0 where
  here : Unstarted id last last
  start_other :
      (now : ℕ) (other : String) (sessions : Sessions)
      → same_id id other ≡ false
      → Unstarted id last (start_session now other sessions).0
      → Unstarted id last sessions
  mark_any :
      (now : ℕ) (other mark : String) (sessions : Sessions)
      → Unstarted id last (checkpoint now other mark sessions).0
      → Unstarted id last sessions
  cancel_any :
      (now : ℕ) (other : String) (sessions : Sessions)
      → Unstarted id last (cancel now other sessions).0
      → Unstarted id last sessions

pub record IsCanceled (id : String) (sessions : Sessions) : Type 0 where
  pub session : SessionRecord
  pub found : get id sessions ≡ some session
  pub canceled_mark : session.state.canceled ≡ true

-- A change that keeps the mark keeps every cancellation.
change_record-IsCanceled :
    (id other : String) (o : Option SessionRecord) (change : SessionRecord → SessionRecord)
    (sessions : Sessions)
    → ((r : SessionRecord) → r.state.canceled ≡ true → (change r).state.canceled ≡ true)
    → get other sessions ≡ o
    → IsCanceled id sessions
    → IsCanceled id (change_record other o change sessions).0
unfolding change_record
change_record-IsCanceled id other none change sessions h e c = c
change_record-IsCanceled id other (some r) change sessions h e c =
    elim (Bool-cases (same_id id other)) [
      | inl same ↦
          let equal : id ≡ other = (same_id_iff id other).0 same in
          let found : get id sessions ≡ some r = ap (λ k. get k sessions) equal ∙ e in
          let marked : r.state.canceled ≡ true =
            ap (λ x. x.state.canceled) (some-injective _ _ (sym found ∙ c.found))
            ∙ c.canceled_mark in
          record {
            session = change r;
            found =
                ap (λ k. get k (upsert same_id other (λ old. change r) sessions)) equal
                ∙ get-upsert other (λ old. change r) sessions;
            canceled_mark = h r marked;
          }
      | inr differs ↦ record {
        session = c.session;
        found = get-upsert_other other id (λ old. change r) sessions differs ∙ c.found;
        canceled_mark = c.canceled_mark;
      }
    ]

Unstarted-IsCanceled :
    (id : String) (last sessions : Sessions)
    → Unstarted id last sessions
    → IsCanceled id sessions
    → IsCanceled id last
unfolding start_session checkpoint cancel
Unstarted-IsCanceled id last sessions here c = c
Unstarted-IsCanceled id last sessions (start_other now other s differs later) c =
    Unstarted-IsCanceled id last _ later (record {
      session = c.session;
      found = get-upsert_other other id (λ old. new_record now other) sessions differs ∙ c.found;
      canceled_mark = c.canceled_mark;
    })
Unstarted-IsCanceled id last sessions (mark_any now other mark s later) c =
    Unstarted-IsCanceled id last _ later (
      change_record-IsCanceled id other (get other sessions) (with_checkpoint now mark) sessions
        (λ r h. h) refl c)
Unstarted-IsCanceled id last sessions (cancel_any now other s later) c =
    Unstarted-IsCanceled id last _ later (
      change_record-IsCanceled id other (get other sessions) (with_cancel now) sessions
        (λ r h. refl) refl c)

change_record_found :
    (id : String) (o : Option SessionRecord) (change : SessionRecord → SessionRecord)
    (sessions : Sessions) {r : SessionRecord}
    → o ≡ some r
    → get id (change_record id o change sessions).0 ≡ some (change r)
unfolding change_record
change_record_found id none change sessions e = absurd (cc)
change_record_found id (some s) change sessions e =
    get-upsert id (λ old. change s) sessions ∙ ap some (ap change (some-injective _ _ e))

-- A session that is there and is canceled stays there and stays canceled, through any calls on it
-- and on others, as long as none of them starts it anew.
pub cancel_permanent :
    (now : ℕ) (id : String) (sessions last : Sessions) (r : SessionRecord)
    → get id sessions ≡ some r
    → Unstarted id last (cancel now id sessions).0
    → IsCanceled id last
unfolding cancel
cancel_permanent now id sessions last r found later = Unstarted-IsCanceled id last _ later (record {
  session = with_cancel now r;
  found = change_record_found id (get id sessions) (with_cancel now) sessions found;
  canceled_mark = refl;
})
