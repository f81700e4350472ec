-- ===== src/ProxyAuth/Window.antt =====
-- Which signed calls the keyring proxy lets in.
use siwa.Base.{ℕ, ◌+◌, ◌≤◌, ok, ◌≡◌, ◌↔◌, arith, ap, sym, ◌∙◌}
use siwa.Base.Int.{pos, int}
use siwa.Base.Numbers.{show_nat}
use siwa.Base.Numbers.RoundTrip.{parse_int_10-show_nat}
use siwa.Base.Str.{Str}
use siwa.Base.Str.Laws.{str_eq_refl}
use siwa.Token.Bytes.{utf8, timing_safe_equal}
use siwa.ProxyAuth.{
  Hashing, valid, max_drift_ms, drift, signed_payload, compute_hmac, verdict, compare_bytes,
  in_window, verify_hmac,
}

module _ (h : Hashing) where
  compare_bytes_refl : (a : Str) → compare_bytes h a a ≡ ok valid
  unfolding compare_bytes timing_safe_equal verdict
  compare_bytes_refl a = ground (arith, str_eq_refl (utf8 a))

  in_window-pos :
      (now sent : ℕ)
      → in_window h now (int (pos sent)) (ok valid) ≡ ok valid
        ↔ (sent ≤ now + max_drift_ms) × (now ≤ sent + max_drift_ms)
  unfolding in_window drift
  in_window-pos now sent = (λ e. ground arith, λ near. ground arith)

  computed :
      (sent now : ℕ) (secret method path body : Str)
      → let headers = compute_hmac h sent secret method path body in
        verify_hmac h now secret method path body headers.timestamp headers.signature
        ≡ in_window h now (int (pos sent)) (ok valid)
  unfolding verify_hmac compute_hmac
  computed sent now secret method path body =
      let signature : Str = h.hmac_hex secret (signed_payload h method path (show_nat sent) body) in
      ap (λ n. in_window h now n (compare_bytes h signature signature)) (parse_int_10-show_nat sent)
      ∙ ap (in_window h now (int (pos sent))) (compare_bytes_refl signature)

  pub verify_hmac-compute_hmac :
      (sent now : ℕ) (secret method path body : Str)
      → let headers = compute_hmac h sent secret method path body in
        verify_hmac h now secret method path body headers.timestamp headers.signature ≡ ok valid
        ↔ (sent ≤ now + max_drift_ms) × (now ≤ sent + max_drift_ms)
  verify_hmac-compute_hmac sent now secret method path body =
      let same = computed sent now secret method path body in
      (
        λ e. (in_window-pos now sent).0 (sym same ∙ e),
        λ near. same ∙ (in_window-pos now sent).1 near,
      )
