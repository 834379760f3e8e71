-- ===== src/Errors/Account.antt =====
-- The error classes of src/helix_sdk/errors.py, lines 481 to 564: hosted accounts.
-- A default argument is an `Option`.
use helix_sdk_py.Errors.Codes
use helix_sdk_py.Base.{Option, none}
use helix_sdk_py.Errors.{HelixError, given, helix_error}
use helix_sdk_py.Errors.Codes.{
  access_token_expired, access_token_invalid, account_already_exists, account_has_no_password,
  account_not_found, account_quota_exceeded, captcha_failed, email_not_verified,
  email_verification_token_expired, email_verification_token_invalid, google_oauth_failed,
  invalid_credentials, refresh_token_expired, refresh_token_invalid, refresh_token_reuse_detected,
}
use helix_sdk_py.Json.{Json}
use helix_sdk_py.Text.{text}

unfoldable pub account_already_exists_error : Option Json → HelixError
account_already_exists_error message =
    helix_error (text "AccountAlreadyExistsError") Codes.account_already_exists
      (given message (text "An account with this email already exists")) 409 none

unfoldable pub account_not_found_error : Option Json → HelixError
account_not_found_error message =
    helix_error (text "AccountNotFoundError") Codes.account_not_found
      (given message (text "Account was not found")) 404 none

unfoldable pub invalid_credentials_error : Option Json → HelixError
invalid_credentials_error message =
    helix_error (text "InvalidCredentialsError") Codes.invalid_credentials
      (given message (text "Email or password is incorrect")) 401 none

unfoldable pub account_has_no_password_error : Option Json → HelixError
account_has_no_password_error message =
    helix_error (text "AccountHasNoPasswordError") Codes.account_has_no_password
      (given message (text "This account signs in with Google only; no password is set")) 401 none

unfoldable pub refresh_token_invalid_error : Option Json → HelixError
refresh_token_invalid_error message =
    helix_error (text "RefreshTokenInvalidError") Codes.refresh_token_invalid
      (given message (text "Refresh token is invalid")) 401 none

unfoldable pub refresh_token_expired_error : Option Json → HelixError
refresh_token_expired_error message =
    helix_error (text "RefreshTokenExpiredError") Codes.refresh_token_expired
      (given message (text "Refresh token has expired; please sign in again")) 401 none

unfoldable pub refresh_token_reuse_detected_error : Option Json → HelixError
refresh_token_reuse_detected_error message =
    helix_error (text "RefreshTokenReuseDetectedError") Codes.refresh_token_reuse_detected
      (given message (
        text
          "This refresh token was already used. All sessions for this account have been signed out as a precaution."))
      401 none

unfoldable pub access_token_invalid_error : Option Json → HelixError
access_token_invalid_error message =
    helix_error (text "AccessTokenInvalidError") Codes.access_token_invalid
      (given message (text "Access token is invalid")) 401 none

unfoldable pub access_token_expired_error : Option Json → HelixError
access_token_expired_error message =
    helix_error (text "AccessTokenExpiredError") Codes.access_token_expired
      (given message (text "Access token has expired")) 401 none

unfoldable pub google_oauth_failed_error : Option Json → HelixError
google_oauth_failed_error message =
    helix_error (text "GoogleOAuthFailedError") Codes.google_oauth_failed
      (given message (text "Google sign-in failed")) 401 none

unfoldable pub email_not_verified_error : Option Json → HelixError
email_not_verified_error message =
    helix_error (text "EmailNotVerifiedError") Codes.email_not_verified
      (given message
        (text "Please verify your email before issuing credentials or enrollment tokens"))
      403 none

unfoldable pub email_verification_token_invalid_error : Option Json → HelixError
email_verification_token_invalid_error message =
    helix_error (text "EmailVerificationTokenInvalidError") Codes.email_verification_token_invalid
      (given message (text "Verification link is invalid")) 400 none

unfoldable pub email_verification_token_expired_error : Option Json → HelixError
email_verification_token_expired_error message =
    helix_error (text "EmailVerificationTokenExpiredError") Codes.email_verification_token_expired
      (given message (text "Verification link has expired; request a new one")) 400 none

unfoldable pub account_quota_exceeded_error : Option Json → HelixError
account_quota_exceeded_error message =
    helix_error (text "AccountQuotaExceededError") Codes.account_quota_exceeded
      (given message (text "Daily quota exceeded for this account")) 429 none

unfoldable pub captcha_failed_error : Option Json → HelixError
captcha_failed_error message =
    helix_error (text "CaptchaFailedError") Codes.captcha_failed
      (given message (text "CAPTCHA verification failed")) 400 none
