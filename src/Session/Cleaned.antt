-- ===== src/Session/Cleaned.antt =====
-- What a tick of cleanupExpiredSessions of pkg/utils/session.go leaves.
use ling_framework.Base.{
  ℕ, ◌≡◌, refl, ap, Bool, false, Option, none, some, [], ◌∷◌, arith, Str, str_comparable, Distinct,
  if◌then◌else◌,
}
use ling_framework.Base.Dict.{Dict, fetch, delete, keys, fetch-delete, member-keys}
use ling_framework.Base.Time.{Time}
use ling_framework.Session.{SessionManager, is_idle, clean_over, cleanup_expired_sessions}

module _ {D : Type 0} where
  -- Whether an entry of the map has been idle for longer than the expiry.
  abbrev pub idle_entry : Time → SessionManager D → Option ℕ → Bool
  idle_entry now m none = false
  idle_entry now m (some at) = is_idle now (m.objects at) m.expiry

  fetch-clean_over :
      (now : Time) (entries : Dict Str ℕ) (m : SessionManager D) (id : Str)
      → Distinct (keys entries)
      → fetch (clean_over now entries m).sessions id
        ≡ (if idle_entry now m (fetch entries id) then none else fetch m.sessions id)
  unfolding clean_over fetch
  fetch-clean_over now [] m id d = refl
  fetch-clean_over now ((j, at) ∷ entries) m id d = ground (
    arith,
    fetch-clean_over now entries m id d.1,
    fetch-clean_over now entries (record m { sessions = delete m.sessions j }) id d.1,
    fetch-delete m.sessions j id,
    member-keys entries j,
    d.0,
    str_comparable.same_iff j id,
    ap (fetch entries),
  )

  -- A tick removes exactly the sessions that have been idle for longer than the expiry.
  pub fetch-cleanup_expired_sessions :
      (now : Time) (m : SessionManager D) (id : Str)
      → Distinct (keys m.sessions)
      → fetch (cleanup_expired_sessions now m).sessions id
        ≡ (if idle_entry now m (fetch m.sessions id) then none else fetch m.sessions id)
  unfolding cleanup_expired_sessions
  fetch-cleanup_expired_sessions now m id d = fetch-clean_over now m.sessions m id d
