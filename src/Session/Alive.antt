-- ===== src/Session/Alive.antt =====
-- How long a session of pkg/utils/session.go lives.
use ling_framework.Base.{
  ℕ, ◌+◌, ◌≤◌, ◌<◌, ◌≡◌, ◌≢◌, ap, Bool, true, false, Option, none, some, List, [], ◌∷◌, arith, Str,
  str_comparable, nat_beq_iff, ◌==◌, Distinct, if_holds, Bool-cases, inl, inr,
}
use ling_framework.Base.Dict.{
  Dict, fetch, delete, keys, is_some, fetch-store, fetch-delete, member-keys,
}
use ling_framework.Base.Dict.Laws
use ling_framework.Base.Int.{pos}
use ling_framework.Base.Time.{Time}
use ling_framework.Session.{
  SessionManager, create_session, update_activity, set_data, touch_found, get_session,
  terminate_session, is_idle, clean_over, cleanup_expired_sessions,
}

pub data Call (D : Type 0) : Type 0 where
  creates gets : Time → Str → Call D
  terminates : Str → Call D
  sets : ℕ → Str → D → Call D
  cleans : Time → Call D

-- An id stands in some entries with one address only.
abbrev pub OnlyAt : Str → ℕ → Dict Str ℕ → Type 0
OnlyAt id at [] = Unit
OnlyAt id at ((j, a) ∷ entries) = (j ≡ id → a ≡ at) × OnlyAt id at entries

absent-OnlyAt :
    (id : Str) (at : ℕ) (entries : Dict Str ℕ) → fetch entries id ≡ none → OnlyAt id at entries
unfolding fetch
absent-OnlyAt id at [] h = tt
absent-OnlyAt id at ((j, a) ∷ entries) h = (
  λ same. absurd (ground (arith, str_comparable.same_iff j id, same, h)),
  absent-OnlyAt id at entries (ground (arith, h)),
)

fetch-OnlyAt :
    (id : Str) (at : ℕ) (entries : Dict Str ℕ)
    → Distinct (keys entries)
    → fetch entries id ≡ some at
    → OnlyAt id at entries
unfolding fetch
fetch-OnlyAt id at [] d h = tt
fetch-OnlyAt id at ((j, a) ∷ entries) d h = elim (Bool-cases (j == id)) [
  | inl same ↦ (
    λ e. ground (arith, h, same),
    absent-OnlyAt id at entries (
        ground (
          arith,
          member-keys entries j,
          d.0,
          str_comparable.same_iff j id,
          same,
          ap (fetch entries),
        )),
  )
  | inr other ↦ (
    λ e. ground (arith, str_comparable.same_iff j id, other, e),
    fetch-OnlyAt id at entries d.1 (ground (arith, h, other)),
  )
]

module _ {D : Type 0} where
  abbrev pub call : Call D → SessionManager D → SessionManager D
  call (creates now id) m = (create_session now id m).1
  call (gets now id) m = (get_session now id m).1
  call (terminates id) m = (terminate_session id m).1
  call (sets at key value) m = set_data at key value m
  call (cleans now) m = cleanup_expired_sessions now m

  abbrev pub call_all : List (Call D) → SessionManager D → SessionManager D
  call_all [] m = m
  call_all (c ∷ cs) m = call_all cs (call c m)

  -- The session at an address stands under its id, and was used at an instant or after it.
  pub record IsAlive (id : Str) (at since life : ℕ) (m : SessionManager D) : Type 0 where
    pub found : fetch m.sessions id ≡ some at
    pub distinct : Distinct (keys m.sessions)
    pub old : at < m.next
    pub used : since ≤ (m.objects at).last_activity
    pub lasts : m.expiry ≡ pos life

  -- Calls that do not end the session: others are created and terminated, it is used after the
  -- instant only, and the cleanups come while it may be idle.
  abbrev pub Spares : Str → ℕ → ℕ → Call D → Type 0
  Spares id since life (creates now j) = j ≢ id
  Spares id since life (gets now j) = since ≤ now
  Spares id since life (terminates j) = j ≢ id
  Spares id since life (sets at key value) = Unit
  Spares id since life (cleans now) = now ≤ since + life

  abbrev pub AllSpare : Str → ℕ → ℕ → List (Call D) → Type 0
  AllSpare id since life [] = Unit
  AllSpare id since life (c ∷ cs) = Spares id since life c × AllSpare id since life cs

  touch-IsAlive :
      (id : Str) (at since life now a : ℕ) (m : SessionManager D)
      → IsAlive id at since life m
      → since ≤ now
      → IsAlive id at since life (update_activity now a m)
  unfolding update_activity
  touch-IsAlive id at since life now a m ok le = record {
    found = ok.found;
    distinct = ok.distinct;
    old = ok.old;
    used = ground (arith, nat_beq_iff a at, ok.used, le);
    lasts = ok.lasts;
  }

  delete-IsAlive :
      (id j : Str) (at since life : ℕ) (m : SessionManager D)
      → IsAlive id at since life m
      → j ≢ id
      → IsAlive id at since life (record m { sessions = delete m.sessions j })
  delete-IsAlive id j at since life m ok other = record {
    found =
        ground (arith, fetch-delete m.sessions j id, str_comparable.same_iff j id, ok.found, other);
    distinct = Laws.delete-Distinct m.sessions j ok.distinct;
    old = ok.old;
    used = ok.used;
    lasts = ok.lasts;
  }

  clean_over-IsAlive :
      (id : Str) (at since life now : ℕ) (entries : Dict Str ℕ) (m : SessionManager D)
      → OnlyAt id at entries
      → now ≤ since + life
      → IsAlive id at since life m
      → IsAlive id at since life (clean_over now entries m)
  unfolding clean_over
  clean_over-IsAlive id at since life now [] m only le ok = ok
  clean_over-IsAlive id at since life now ((j, a) ∷ entries) m only le ok =
      clean_over-IsAlive id at since life now entries _ only.1 le (
        if_holds (IsAlive id at since life) (is_idle now (m.objects a) m.expiry)
          (record m { sessions = delete m.sessions j }) m
          (λ idle. delete-IsAlive id j at since life m ok (λ same. ground (
            arith,
            idle,
            ok.lasts,
            ok.used,
            le,
            ap (λ x. (m.objects x).last_activity) (only.0 same),
          )))
          (λ busy. ok))

  get-IsAlive :
      (id : Str) (at since life now : ℕ) (o : Option ℕ) (m : SessionManager D)
      → IsAlive id at since life m
      → since ≤ now
      → IsAlive id at since life (touch_found now o m).1
  get-IsAlive id at since life now none m ok le = ok
  get-IsAlive id at since life now (some a) m ok le = touch-IsAlive id at since life now a m ok le

  call-IsAlive :
      (id : Str) (at since life : ℕ) (c : Call D) (m : SessionManager D)
      → IsAlive id at since life m
      → Spares id since life c
      → IsAlive id at since life (call c m)
  unfolding create_session get_session terminate_session set_data cleanup_expired_sessions
  call-IsAlive id at since life (creates now j) m ok other = record {
    found =
        ground (
          arith,
          fetch-store m.sessions j id m.next,
          str_comparable.same_iff j id,
          ok.found,
          other,
        );
    distinct = Laws.store-Distinct m.sessions j m.next ok.distinct;
    old = omega (arith, ok.old);
    used = ground (arith, nat_beq_iff m.next at, ok.used, ok.old);
    lasts = ok.lasts;
  }
  call-IsAlive id at since life (gets now j) m ok le =
      get-IsAlive id at since life now (fetch m.sessions j) m ok le
  call-IsAlive id at since life (terminates j) m ok other =
      if_holds (λ (r : Bool × SessionManager D). IsAlive id at since life r.1)
        (is_some (fetch m.sessions j)) (true, record m { sessions = delete m.sessions j })
        (false, m) (λ h. delete-IsAlive id j at since life m ok other) (λ h. ok)
  call-IsAlive id at since life (sets a key value) m ok spare = record {
    found = ok.found;
    distinct = ok.distinct;
    old = ok.old;
    used = ground (arith, nat_beq_iff a at, ok.used, ap (λ x. (m.objects x).last_activity));
    lasts = ok.lasts;
  }
  call-IsAlive id at since life (cleans now) m ok le =
      clean_over-IsAlive id at since life now m.sessions m
        (fetch-OnlyAt id at m.sessions ok.distinct ok.found) le ok

  call_all-IsAlive :
      (id : Str) (at since life : ℕ) (cs : List (Call D)) (m : SessionManager D)
      → IsAlive id at since life m
      → AllSpare id since life cs
      → IsAlive id at since life (call_all cs m)
  call_all-IsAlive id at since life [] m ok spare = ok
  call_all-IsAlive id at since life (c ∷ cs) m ok spare =
      call_all-IsAlive id at since life cs (call c m) (call-IsAlive id at since life c m ok spare.0)
        spare.1

  -- A session that is created at an instant is found, at any later instant, whatever is called in
  -- between, if nobody terminates it or creates another of its id and no cleanup comes later than
  -- the expiry after that instant. The cleanup leaves the sessions that it may.
  pub get_session-create_session :
      (t now life : ℕ) (id : Str) (cs : List (Call D)) (m : SessionManager D)
      → Distinct (keys m.sessions)
      → m.expiry ≡ pos life
      → AllSpare id t life cs
      → (get_session now id (call_all cs (create_session t id m).1)).0
        ≡ some (create_session t id m).0
  unfolding create_session get_session
  get_session-create_session t now life id cs m distinct lasts spare =
      let start : IsAlive id m.next t life (create_session t id m).1 = record {
        found = ground (arith, fetch-store m.sessions id id m.next, str_comparable.same_iff id id);
        distinct = Laws.store-Distinct m.sessions id m.next distinct;
        old = omega arith;
        used = ground (arith, nat_beq_iff m.next m.next);
        lasts = lasts;
      } in
      let alive = call_all-IsAlive id m.next t life cs (create_session t id m).1 start spare in
      ap (λ o. (touch_found now o (call_all cs (create_session t id m).1)).0) alive.found
