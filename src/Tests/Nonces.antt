-- ===== src/Tests/Nonces.antt =====
-- Histories of the nonce stores.
use siwa.Base.{map, ok, All, ◌≤◌, none, ◌≡◌, refl, arith, true, false, List, [], ◌∷◌}
use siwa.Base.JsMap.{get, retain}
use siwa.Base.Str.{Str, text, str_eq}
use siwa.NonceStore.{Call, issues, consumes, issue, consume, run}
use siwa.NonceStore.Expiry.{consume-run-issue}
use siwa.NonceStore.Refinement.{alive, answers, promised_answers, answers-promised}
use siwa.NonceStore.Once.{accepted_count, issued_count, accepted-le-issued}
use siwa.NonceStore.Remote.Atomic.{IsServed, redis_answers, redis_answers-promised}
use siwa.Erc8128.{consume_key}
use siwa.Erc8128.Replay
use siwa.Erc8128.Replay.{Consumption, consume_key-replay}
use siwa.Tests.Fixtures.{redis, redis-RedisLaws, is_live}

abbrev nonce : Str
nonce = text "abcdefgh"

abbrev calls : List Call
calls = issues 0 0 nonce 100 ∷ consumes 50 50 nonce ∷ consumes 60 60 nonce ∷ []

accepted-le-issued_example : accepted_count nonce [] calls ≤ issued_count nonce [] calls
accepted-le-issued_example = accepted-le-issued nonce calls

answers-promised_example : answers [] calls ≡ promised_answers (λ n. none) calls
answers-promised_example =
    answers-promised 0 calls
      (omega arith, (omega arith, (omega arith, (omega arith, (omega arith, (omega arith, tt))))))

issued_first : (issue 0 0 nonce 100 []).1 ≡ true
unfolding issue text retain get
issued_first = refl

abbrev others : List Call
others = issues 10 10 (text "zyxwvuts") 100 ∷ []

consume-run-issue_example : (consume 50 50 nonce (run (issue 0 0 nonce 100 []).0 others)).1 ≡ true
unfolding str_eq text siwa.NonceStore.Expiry.ended_after
consume-run-issue_example =
    consume-run-issue [] nonce 0 0 100 50 50 others tt issued_first (refl, tt)
      (omega arith, (omega arith, tt)) (omega arith) (omega arith)

served : All IsServed calls
served = ((refl, omega arith), (refl, (refl, tt)))

redis_answers-promised_example :
    redis_answers redis (text "siwa:nonce:") (λ k. none) calls
    ≡ map ok (promised_answers (λ n. none) calls)
unfolding alive
redis_answers-promised_example =
    redis_answers-promised redis (text "siwa:nonce:") is_live redis-RedisLaws 0 (λ k. none) calls
      (λ n now. refl) served
      (omega arith, (omega arith, (omega arith, (omega arith, (omega arith, (omega arith, tt))))))

abbrev between : List Consumption
between = (5000, text "other", 60) ∷ []

key_accepted : (consume_key 0 (text "key") 60 []).1 ≡ true
unfolding consume_key text retain get
key_accepted = refl

consume_key-replay_example :
    (consume_key 60000 (text "key") 60 (Replay.run (consume_key 0 (text "key") 60 []).0 between)).1
    ≡ false
consume_key-replay_example =
    consume_key-replay (text "key") [] 0 60 60 60000 between tt key_accepted (omega arith, tt)
      (omega arith)
