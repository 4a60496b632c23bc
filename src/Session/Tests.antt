-- ===== src/Session/Tests.antt =====
-- Sessions of pkg/utils/session.go at concrete instants.
use ling_framework.Base.{ℕ, ◌≡◌, ◌≢◌, refl, none, some, List, [], ◌∷◌, arith, str_comparable, codes}
use ling_framework.Base.Dict.{fetch, store, delete}
use ling_framework.Base.Int.{pos}
use ling_framework.Session.{
  SessionManager, new_session, new_session_manager, create_session, get_session,
  cleanup_expired_sessions, clean_over,
}
use ling_framework.Session.Alive.{
  Call, creates, gets, terminates, sets, cleans, call_all, AllSpare, get_session-create_session,
}
use ling_framework.Session.Cleaned.{fetch-cleanup_expired_sessions}

abbrev manager : SessionManager ℕ
manager = new_session_manager (λ at. new_session 0 []) (pos 60)

abbrev calls : List (Call ℕ)
calls =
    creates 101 (codes "b")
    ∷ gets 130 (codes "a")
    ∷ sets 0 (codes "k") 7
    ∷ cleans 160
    ∷ terminates (codes "b")
    ∷ []

b-other : codes "b" ≢ codes "a"
b-other = ground (arith, str_comparable.same_iff (codes "b") (codes "a"))

calls-AllSpare : AllSpare (codes "a") 100 60 calls
calls-AllSpare = (b-other, (omega arith, (tt, (omega arith, (b-other, tt)))))

get_session-create_session_example :
    (get_session 500 (codes "a") (call_all calls (create_session 100 (codes "a") manager).1)).0
    ≡ some 0
unfolding create_session
get_session-create_session_example =
    get_session-create_session 100 500 60 (codes "a") calls manager tt refl calls-AllSpare

abbrev two : SessionManager ℕ
two = (create_session 150 (codes "b") (create_session 100 (codes "a") manager).1).1

fetch-cleanup_expired_sessions_example :
    fetch (cleanup_expired_sessions 200 two).sessions (codes "a") ≡ none
unfolding create_session fetch store
fetch-cleanup_expired_sessions_example =
    fetch-cleanup_expired_sessions 200 two (codes "a") (refl, (refl, tt))

other_stays : fetch (cleanup_expired_sessions 200 two).sessions (codes "b") ≡ some 1
unfolding create_session fetch store delete cleanup_expired_sessions clean_over
other_stays = refl
