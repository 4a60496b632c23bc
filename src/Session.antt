-- ===== src/Session.antt =====
-- pkg/utils/session.go: the sessions of a server. Sessions are shared pointers: addresses into
-- `objects`, of which `next` is the first that is free. D are the values of a session's data. The
-- ids come from a random source; a method under the manager's mutex is one step.
pub mod Alive
pub mod Cleaned
mod Tests
use ling_framework.Base.{
  ℕ, ◌+◌, Bool, true, false, Option, none, some, List, [], ◌∷◌, Str, str_comparable, nat_beq,
  if◌then◌else◌,
}
use ling_framework.Base.Dict.{Dict, fetch, store, delete, keys, is_some}
use ling_framework.Base.Int.{ℤ, pos, ltb_ℤ}
use ling_framework.Base.Time.{Time, Duration, sub_time}

pub record Session (D : Type 0) : Type 0 where
  pub id : Str
  pub created_at : Time
  pub last_activity : Time
  pub data_of : Dict Str D

-- `expiry` is the product of expirySeconds with time.Second.
pub record SessionManager (D : Type 0) : Type 0 where
  pub objects : ℕ → Session D
  pub next : ℕ
  pub sessions : Dict Str ℕ
  pub expiry : Duration

module _ {D : Type 0} where
  abbrev pub put_session : ℕ → Session D → (ℕ → Session D) → ℕ → Session D
  put_session at s objects j = if nat_beq at j then s else objects j

  -- NewSession, with the id that it generates; the two reads of the clock are one.
  abbrev pub new_session : Time → Str → Session D
  new_session now id = record { id = id; created_at = now; last_activity = now; data_of = [] }

  -- NewSessionManager
  abbrev pub new_session_manager : (ℕ → Session D) → Duration → SessionManager D
  new_session_manager objects expiry = record {
    objects = objects;
    next = 0;
    sessions = [];
    expiry = expiry;
  }

  -- CreateSession
  unfoldable pub create_session : Time → Str → SessionManager D → ℕ × SessionManager D
  create_session now id m = (
    m.next,
    record m {
      objects = put_session m.next (new_session now id) m.objects;
      next = m.next + 1;
      sessions = store m.sessions id m.next;
    },
  )

  -- UpdateActivity
  unfoldable pub update_activity : Time → ℕ → SessionManager D → SessionManager D
  update_activity now at m = record m {
    objects = put_session at (record (m.objects at) { last_activity = now }) m.objects;
  }

  -- GetData and SetData
  unfoldable pub get_data : ℕ → Str → SessionManager D → Option D
  get_data at key m = fetch (m.objects at).data_of key

  unfoldable pub set_data : ℕ → Str → D → SessionManager D → SessionManager D
  set_data at key value m = record m {
    objects =
        put_session at (record (m.objects at) { data_of = store (m.objects at).data_of key value })
          m.objects;
  }

  abbrev pub touch_found : Time → Option ℕ → SessionManager D → Option ℕ × SessionManager D
  touch_found now none m = (none, m)
  touch_found now (some at) m = (some at, update_activity now at m)

  -- GetSession
  unfoldable pub get_session : Time → Str → SessionManager D → Option ℕ × SessionManager D
  get_session now id m = touch_found now (fetch m.sessions id) m

  -- GetActiveSessions
  abbrev pub get_active_sessions : SessionManager D → List Str
  get_active_sessions m = keys m.sessions

  -- TerminateSession
  unfoldable pub terminate_session : Str → SessionManager D → Bool × SessionManager D
  terminate_session id m =
      if is_some (fetch m.sessions id)
      then (true, record m { sessions = delete m.sessions id })
      else (false, m)

  -- now.Sub(session.LastActivity) > the expiry
  abbrev pub is_idle : Time → Session D → Duration → Bool
  is_idle now s expiry = ltb_ℤ expiry (sub_time now s.last_activity)

  -- The range of cleanupExpiredSessions over the entries of the map, from which it deletes.
  unfoldable pub clean_over : Time → Dict Str ℕ → SessionManager D → SessionManager D
  clean_over now [] m = m
  clean_over now ((id, at) ∷ entries) m =
      let m' =
        if is_idle now (m.objects at) m.expiry
        then record m { sessions = delete m.sessions id }
        else m in
      clean_over now entries m'

  -- A tick of cleanupExpiredSessions
  unfoldable pub cleanup_expired_sessions : Time → SessionManager D → SessionManager D
  cleanup_expired_sessions now m = clean_over now m.sessions m
