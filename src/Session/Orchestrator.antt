-- ===== src/Session/Orchestrator.antt =====
-- `SessionOrchestrator`: the sessions by their identifiers. The clock is the argument `now`.
pub mod History
use text.Mathlib.Text
use text.Mathlib.TextEquality.{eq_iff}
use file_recovery_engine.Prelude.{
  ℕ, ◌≡◌, Bool, true, false, Option, none, some, List, [], ◌∷◌, String, ◌↔◌,
}
use file_recovery_engine.Prelude.Outcome.{Outcome, ok, err}
use file_recovery_engine.Scoring.Types.{ScanSessionState, new_session}
use file_recovery_engine.Session.Maps.{find, upsert}

pub record SessionRecord : Type 0 where
  pub state : ScanSessionState
  pub updated_at : ℕ

pub data SessionError : Type 0 where
  not_found : String → SessionError

abbrev pub Sessions : Type 0
Sessions = List (String × SessionRecord)

abbrev pub same_id : String → String → Bool
same_id a b = Text.◌==◌ a b

pub same_id_iff : (a b : String) → (same_id a b ≡ true) ↔ (a ≡ b)
same_id_iff a b = eq_iff a b

unfoldable pub get : String → Sessions → Option SessionRecord
unfolding find
get session_id sessions = find same_id session_id sessions

abbrev pub new_record : ℕ → String → SessionRecord
new_record now session_id = record {
  state = new_session session_id "initialized";
  updated_at = now;
}

unfoldable pub start_session : ℕ → String → Sessions → Sessions × SessionRecord
unfolding upsert
start_session now session_id sessions = (
  upsert same_id session_id (λ old. new_record now session_id) sessions,
  new_record now session_id,
)

-- `get_mut`: a record that is there is changed in place.
unfoldable pub change_record :
    String
    → Option SessionRecord
    → (SessionRecord → SessionRecord)
    → Sessions
    → Sessions × Outcome SessionError (Unit {0})
unfolding upsert
change_record session_id none change sessions = (sessions, err (not_found session_id))
change_record session_id (some r) change sessions =
    (upsert same_id session_id (λ old. change r) sessions, ok tt)

abbrev pub with_checkpoint : ℕ → String → SessionRecord → SessionRecord
with_checkpoint now mark r = record {
  state = record r.state { checkpoint = mark };
  updated_at = now;
}

abbrev pub with_cancel : ℕ → SessionRecord → SessionRecord
with_cancel now r = record { state = record r.state { canceled = true }; updated_at = now }

unfoldable pub checkpoint :
    ℕ → String → String → Sessions → Sessions × Outcome SessionError (Unit {0})
unfolding change_record get
checkpoint now session_id mark sessions =
    change_record session_id (get session_id sessions) (with_checkpoint now mark) sessions

unfoldable pub cancel : ℕ → String → Sessions → Sessions × Outcome SessionError (Unit {0})
unfolding change_record get
cancel now session_id sessions =
    change_record session_id (get session_id sessions) (with_cancel now) sessions
