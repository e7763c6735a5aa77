-- ===== src/LargeBlobs/Authorization.antt =====
-- Which fragments are authorized: `handle_large_blobs` of large_blobs.rs.
use software_authenticator.Base.{
  ◌^◌, if-elim, ℕ, ◌≡◌, refl, ◌∙◌, ap, Bool, true, false, Option, none, some, List, arith, leb,
  if◌then◌else◌,
}
use software_authenticator.Pin.Types.{
  Result, ok, err, CtapApp, PinUvAuthTokenState, PinProtocol, ctap2_err_pin_auth_invalid,
}
use software_authenticator.Pin.Params.{
  Value, integer, negative, bytes, text, array, mapping, boolean, other, Params,
  parse_required_pin_uv_auth_protocol,
}
use software_authenticator.Pin.Permissions.{pin_permission_lbw}
use software_authenticator.Pin.Token.{verify, observe, has_permission, has_permission_in}
use software_authenticator.Pin.Lifetime.{observe-observe}
use software_authenticator.LargeBlobs.Types.{Crypto, look}
use software_authenticator.LargeBlobs.Write.{
  is_protected, fragment_message, permit, verify_fragment, authorize_with, authorize_parameter,
  authorize_fragment,
}

-- A token with the permission lbw is in use at this time.
abbrev pub MayWrite : CtapApp → Type 0
MayWrite app = has_permission app.token app.now pin_permission_lbw ≡ true

pub look-MayWrite : (app : CtapApp) → MayWrite app → MayWrite (look app)
unfolding observe
look-MayWrite app may =
    ap (λ s. has_permission_in (s.in_use) pin_permission_lbw)
      (observe-observe app.token app.now app.now (omega arith))
    ∙ may

-- An app that may write if it is protected.
abbrev pub MayIfProtected : CtapApp → Type 0
MayIfProtected app = is_protected app ≡ true → MayWrite app

permit-May :
    (app : CtapApp) (verified : Result {0} Unit)
    → (permit app verified).1 ≡ ok tt
    → MayWrite (permit app verified).0
permit-May app (err e) permitted = absurd (ground arith)
permit-May app (ok t) permitted =
    look-MayWrite app (granted (has_permission app.token app.now pin_permission_lbw) permitted)
  where
    granted :
        (p : Bool)
        → Path (Result {0} Unit) (if p then ok tt else err ctap2_err_pin_auth_invalid) (ok tt)
        → p ≡ true
    granted true same = refl
    granted false same = absurd (ground arith)

verify_fragment-May :
    (c : Crypto) (app : CtapApp) (offset : ℕ) (fragment auth : List ℕ) (protocol : PinProtocol)
    → (verify_fragment c app offset fragment auth protocol).1 ≡ ok tt
    → MayWrite (verify_fragment c app offset fragment auth protocol).0
verify_fragment-May c app offset fragment auth protocol accepted =
    permit-May (record app { token = verified.0 }) verified.1 accepted
  where
    verified : PinUvAuthTokenState × Result {0} Unit
    verified =
        verify app.token app.now protocol
          (λ key. c.authentic protocol key (fragment_message c offset fragment) auth)

authorize_with-May :
    (c : Crypto) (app : CtapApp) (offset : ℕ) (fragment : List ℕ) (auth : Value)
    (protocol : Result PinProtocol)
    → (authorize_with c app offset fragment auth protocol).1 ≡ ok tt
    → MayWrite (authorize_with c app offset fragment auth protocol).0
authorize_with-May c app offset fragment auth (err e) accepted = absurd (ground arith)
authorize_with-May c app offset fragment (bytes auth) (ok protocol) accepted =
    if-elim (λ (r : CtapApp × Result {0} Unit). r.1 ≡ ok tt → MayWrite r.0) (leb (2 ^ 32) offset) _
      _ (λ large refused. absurd (ground arith))
      (λ small. verify_fragment-May c app offset fragment auth protocol) accepted
authorize_with-May c app offset fragment (integer n) (ok protocol) accepted = absurd (ground arith)
authorize_with-May c app offset fragment (negative n) (ok protocol) accepted = absurd (ground arith)
authorize_with-May c app offset fragment (text t) (ok protocol) accepted = absurd (ground arith)
authorize_with-May c app offset fragment (array a) (ok protocol) accepted = absurd (ground arith)
authorize_with-May c app offset fragment mapping (ok protocol) accepted = absurd (ground arith)
authorize_with-May c app offset fragment (boolean b) (ok protocol) accepted = absurd (ground arith)
authorize_with-May c app offset fragment other (ok protocol) accepted = absurd (ground arith)

authorize_parameter-May :
    (c : Crypto) (app : CtapApp) (offset : ℕ) (fragment : List ℕ) (auth protocol : Option Value)
    → (authorize_parameter c app offset fragment auth protocol).1 ≡ ok tt
    → MayWrite (authorize_parameter c app offset fragment auth protocol).0
authorize_parameter-May c app offset fragment none protocol accepted = absurd (ground arith)
authorize_parameter-May c app offset fragment (some auth) protocol accepted =
    authorize_with-May c app offset fragment auth (parse_required_pin_uv_auth_protocol protocol)
      accepted

-- A fragment that is authorized leaves an app that may write if it is protected.
pub authorize_fragment-May :
    (c : Crypto) (app : CtapApp) (p : Params) (offset : ℕ) (fragment : List ℕ)
    → (authorize_fragment c app p offset fragment).1 ≡ ok tt
    → MayIfProtected (authorize_fragment c app p offset fragment).0
unfolding authorize_fragment
authorize_fragment-May c app p offset fragment accepted =
    if-elim (λ (r : CtapApp × Result {0} Unit). r.1 ≡ ok tt → MayIfProtected r.0) (is_protected app)
      _ _
      (λ guarded accepted protected.
        authorize_parameter-May c app offset fragment (p 5) (p 6) accepted)
      (λ free accepted protected. absurd (clash protected free)) accepted
  where
    clash : {b : Bool} → b ≡ true → b ≡ false → ⊥
    clash t f = ground arith
