-- ===== src/Tests/Messages.antt =====
-- A message and its fields.
use siwa.Base.{ok, ◌≡◌, refl, arith}
use siwa.Base.Str.{text, starts_with, trim, trim_start, is_space, is_line_end}
use siwa.Message.{build_siwa_message, parse_siwa_message, address_ok}
use siwa.Message.RoundTrip.{IsWellFormed, normal, parse-build}
use siwa.Tests.Fixtures.{fields}

fields-IsWellFormed : IsWellFormed fields
unfolding text starts_with trim trim_start is_space is_line_end address_ok
fields-IsWellFormed = record {
  domain_given = λ e. cc;
  domain = ground arith;
  address_valid = refl;
  address = ground arith;
  statement = record { lacks = ground arith; trimmed = refl; no_uri = refl };
  uri = ground arith;
  version = tt;
  agent_registry = ground arith;
  nonce = ground arith;
  issued_at = ground arith;
  expiration_time = ground arith;
  not_before = tt;
  request_id = tt;
}

parse-build_example : parse_siwa_message (build_siwa_message fields) ≡ ok (normal fields)
parse-build_example = parse-build fields fields-IsWellFormed
