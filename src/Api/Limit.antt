-- ===== src/Api/Limit.antt =====
-- The repetition of a login in openwrt/opensocks/src/dual_experiment.go for the code 20013.
use open_socks.Prelude.{
  ◌≡◌, refl, ◌∙◌, inl, inr, Bool, true, false, ◌||◌, [], ◌∷◌, ◌++◌, arith, ◌==◌, any, Bool-cases,
  Bytes, err, pos,
}
use open_socks.Decimal.{itoa}
use open_socks.Lines.{starts, contains}
use open_socks.Api.{api_error, error_text, ApiClient, LoginRequest, Service}
use open_socks.Api.Calls.{Answer, attempts, after_attempt, login}
use open_socks.Api.Slots.{session_limit, is_session_limit, login_thrice}

unfoldable pub has_quote : Bytes → Bool
has_quote s = any (λ c. c == b'"') s

starts-quote : (sub s : Bytes) → starts sub s ≡ true → has_quote sub ≡ true → has_quote s ≡ true
unfolding starts has_quote
starts-quote [] s a b = absurd (ground (arith, b))
starts-quote (x ∷ xs) [] a b = absurd (ground (arith, a))
starts-quote (x ∷ xs) (y ∷ ys) a b = ground (arith, a, b, starts-quote xs ys)

contains-quote : (s sub : Bytes) → contains s sub ≡ true → has_quote sub ≡ true → has_quote s ≡ true
unfolding contains has_quote
contains-quote [] sub a b = starts-quote sub [] a b
contains-quote (c ∷ s) sub a b =
    ground (arith, a, b, starts-quote sub (c ∷ s), contains-quote s sub)

has_quote-append : (a b : Bytes) → has_quote (a ++ b) ≡ (has_quote a || has_quote b)
unfolding has_quote
has_quote-append [] b = refl
has_quote-append (x ∷ a) b = ground (arith, has_quote-append a b)

no_limit : (s : Bytes) → has_quote s ≡ false → contains s session_limit ≡ false
unfolding has_quote
no_limit s h = elim (Bool-cases (contains s session_limit)) [
  | inr e ↦ e
  | inl e ↦ absurd (ground (arith, h, contains-quote s session_limit e refl))
]

text_quote : (m : Bytes) → has_quote (error_text (api_error (pos 20013) m)) ≡ has_quote m
unfolding error_text has_quote itoa
text_quote m = refl

once : (m : Bytes) → has_quote m ≡ false → is_session_limit (api_error (pos 20013) m) ≡ false
unfolding is_session_limit
once m h = no_limit (error_text (api_error (pos 20013) m)) (text_quote m ∙ h)

module _ {S : Type 0} (v : Service S) where
  not_again :
      (next : ApiClient × S → Answer S Bytes) (a : Answer S Bytes) (m : Bytes)
      → has_quote m ≡ false
      → a.0 ≡ err (api_error (pos 20013) m)
      → after_attempt is_session_limit next a ≡ a
  not_again next (r, w) m h e = rw (e, once m h) refl

  -- A login that the service refuses with the code 20013 in its envelope, with a message that has no quotation mark, is not repeated.
  pub login_thrice-once :
      (r : LoginRequest) (w : ApiClient × S) (m : Bytes)
      → has_quote m ≡ false
      → (login v r w).0 ≡ err (api_error (pos 20013) m)
      → login_thrice v r w ≡ login v r w
  unfolding login_thrice attempts
  login_thrice-once r w m h e =
      not_again (attempts is_session_limit 1 (login v r)) (login v r w) m h e
