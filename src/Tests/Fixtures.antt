-- ===== src/Tests/Fixtures.antt =====
-- Concrete values of what the sources call and do not implement.
use siwa.Base.{
  [], ℕ, ◌+◌, ◌&&◌, not, is_some, ◌*◌, ◌/◌, ◌^◌, ltb, Option, none, some, ok, refl, true, arith,
  Bool, if◌then◌else◌,
}
use siwa.Base.Int.{Number, nan, int, pos, negsuc}
use siwa.Base.Json.{Json, null, num, end, field, obj}
use siwa.Base.Str.{Str, text, str_eq}
use siwa.Message.{SiwaMessageFields}
use siwa.NonceStore.Remote.{RedisLikeClient}
use siwa.NonceStore.Remote.Atomic.{RedisLaws}
use siwa.Receipt.{ReceiptPayload, ReceiptOptions, eoa, onchain}
use siwa.Base.Doubles.{Doubles}
use siwa.NonceStore.Refinement.{alive}
use siwa.Registry.{PublicClient}
use siwa.Runtime.{Runtime, Laws}

abbrev pub number_of : Json → Number
number_of (num z) = int z
number_of v = nan

-- Doubles as their number of thousandths, for numbers from 0 on.
abbrev pub doubles : Doubles
doubles = record {
  number = λ z. elim z [ pos n ↦ n * 1000 | negsuc n ↦ 0 ];
  power_of_10 = λ n. 10 ^ n * 1000;
  divide = λ a b. a * 1000 / b;
  less = ltb;
  show = λ a. [];
}

-- A runtime whose texts all decode to one value.
abbrev pub runtime : Json → Runtime
runtime v = record {
  hmac = λ secret t. text "mac";
  encode = λ w. text "e30";
  decode = λ t. ok v;
  to_number = number_of;
  doubles = doubles;
  to_lower = λ s. s;
  date_parse = λ s. some (pos 1000);
  to_iso_string = λ t. text "1970-01-01T00:00:01.000Z";
}

pub runtime-Laws : (v : Json) → Laws (runtime v)
unfolding text
runtime-Laws v = record {
  hmac_ascii = λ secret t. (omega arith, (omega arith, (omega arith, tt)));
  hmac_given = λ secret t e. cc;
  encode_no_dot = λ w. ground arith;
  encode_given = λ w e. cc;
  to_number_num = λ z. refl;
}

abbrev pub fields : SiwaMessageFields
fields = record {
  domain = text "example.com";
  address = text "0x1111111111111111111111111111111111111111";
  statement = some (text "Hello");
  uri = text "https://example.com";
  version = none;
  agent_id = int (pos 42);
  agent_registry = text "eip155:8453:0x2222";
  chain_id = int (pos 8453);
  nonce = text "abcdefgh";
  issued_at = text "2026-01-01T00:00:00Z";
  expiration_time = some (text "2026-01-02T00:00:00Z");
  not_before = none;
  request_id = none;
}

-- A chain on which every signature is valid and one address owns every agent.
abbrev pub client : PublicClient
client = record {
  verify_message = λ address message signature. ok true;
  get_code = λ address. ok none;
  owner_of = λ registry id. ok (text "0x1111111111111111111111111111111111111111");
  token_uri = λ registry id. ok (text "ipfs://agent");
  get_agent_wallet = λ registry id. ok (text "0x3333");
  get_summary = λ registry id. ok (5, pos 80, 0);
  fetch = λ url. ok (record {
    is_ok = true;
    status = 200;
    json = ok (obj (field "active" (Json.bool true) end));
  });
  decode_base64 = λ t. ok null;
}

abbrev pub payload : ReceiptPayload
payload = record {
  address = text "0x1111111111111111111111111111111111111111";
  agent_id = int (pos 42);
  agent_registry = text "eip155:8453:0x2222";
  chain_id = int (pos 8453);
  verified = onchain;
  signer_type = some eoa;
}

abbrev pub receipt_options : ReceiptOptions
receipt_options = record { secret = text "secret"; ttl = some 1000 }

-- A server that keeps the deadline of each key and gives each command its documented reply.
abbrev pub is_live : Str → ℕ → (Str → Option ℕ) → Bool
is_live k now s = is_some (alive now (s k))

abbrev pub redis : RedisLikeClient (Str → Option ℕ)
redis = record {
  set_nx = λ now k v ttl s. (
    (λ j. if str_eq k j && not (is_live k now s) then some (now + ttl) else s j),
    ok (if is_live k now s then none else some (text "OK")),
  );
  del = λ now k s. ((λ j. if str_eq k j then none else s j), ok (if is_live k now s then 1 else 0));
}

pub redis-RedisLaws : RedisLaws redis is_live
unfolding alive
redis-RedisLaws = record {
  set_reply = λ now k v ttl s given. refl;
  set_live = λ now t k j v ttl s given le. ground arith;
  del_count = λ now k s. refl;
  del_live = λ now t k j s le. ground arith;
}
