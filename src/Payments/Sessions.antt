-- ===== src/Payments/Sessions.antt =====
-- How long a paid session lasts.
use siwa.Base.{ℕ, ◌+◌, ◌≤◌, not, none, some, if◌then◌else◌, ltb, arith, ◌≡◌}
use siwa.Base.JsMap.{get, set, IsMap, get-set, get-retain, set-IsMap, retain-IsMap}
use siwa.Base.Str.{Str}
use siwa.Base.Str.Laws.{str_eq_refl}
use siwa.Payments.{
  X402Session, SessionEntry, SessionStore, session_key, cleanup_sessions, session_of, get_session,
  set_session,
}

get-live :
    (now : ℕ) (key : Str) (sessions : SessionStore) (e : SessionEntry)
    → IsMap sessions
    → get key sessions ≡ some e
    → get key (cleanup_sessions now sessions) ≡ (if ltb e.expiry now then none else some e)
unfolding cleanup_sessions
get-live now key sessions e h found =
    ground (arith, get-retain (λ (x : SessionEntry). not (ltb x.expiry now)) key sessions h)

-- A session that was set is found, until its time to live has passed and no longer.
pub get_session-set_session :
    (set_now set_later now later ttl : ℕ) (address resource : Str) (session : X402Session)
    (sessions : SessionStore)
    → IsMap sessions
    → now ≤ later
    → (get_session now later address resource
        (set_session set_now set_later address resource session ttl sessions)).1
      ≡ (if ltb (set_later + ttl) later then none else some session)
unfolding get_session set_session session_of cleanup_sessions
get_session-set_session set_now set_later now later ttl address resource session sessions h le =
    let key : Str = session_key address resource in
    let live : SessionStore = cleanup_sessions set_now sessions in
    let kept : IsMap live =
      retain-IsMap (λ (x : SessionEntry). not (ltb x.expiry set_now)) sessions h in
    let entry : SessionEntry = record { session = session; expiry = set_later + ttl } in
    ground (
      arith,
      str_eq_refl key,
      get-set key key entry live,
      get-live now key (set key entry live) entry (set-IsMap key entry live kept),
    )
