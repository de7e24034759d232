-- ===== src/Lockdown/Error.antt =====
-- src/lockdown.c: the codes of lockdownd, their names on the wire and their texts.
use libimobiledevice.Common.{ℕ, Bool, true, false, List, [], ◌∷◌, ◌==◌, if◌then◌else◌}
use libimobiledevice.Common.Bytes.{bytes_eq, codes}
use libimobiledevice.PlistService.{PlistServiceError}
use libimobiledevice.DeviceLink.{Text}

-- The codes of lockdownd_error_t.
pub data LockdownError : Type 0 where
  success invalid_arg invalid_conf plist_error pairing_failed ssl_error dict_error receive_timeout
        mux_error no_running_session invalid_response missing_key missing_value get_prohibited
        set_prohibited remove_prohibited immutable_value password_protected user_denied_pairing
        pairing_dialog_response_pending missing_host_id invalid_host_id session_active
        session_inactive missing_session_id invalid_session_id missing_service invalid_service
        service_limit missing_pair_record save_pair_record_failed invalid_pair_record
        invalid_activation_record missing_activation_record service_prohibited escrow_locked
        pairing_prohibited_over_this_connection fmip_protected mc_protected mc_challenge_required
        unknown_error :
      LockdownError

-- Their values, which are zero and negative numbers in the source.
unfoldable pub negated_value : LockdownError → ℕ
negated_value LockdownError.success = 0
negated_value LockdownError.invalid_arg = 1
negated_value LockdownError.invalid_conf = 2
negated_value LockdownError.plist_error = 3
negated_value LockdownError.pairing_failed = 4
negated_value LockdownError.ssl_error = 5
negated_value LockdownError.dict_error = 6
negated_value LockdownError.receive_timeout = 7
negated_value LockdownError.mux_error = 8
negated_value LockdownError.no_running_session = 9
negated_value LockdownError.invalid_response = 10
negated_value LockdownError.missing_key = 11
negated_value LockdownError.missing_value = 12
negated_value LockdownError.get_prohibited = 13
negated_value LockdownError.set_prohibited = 14
negated_value LockdownError.remove_prohibited = 15
negated_value LockdownError.immutable_value = 16
negated_value LockdownError.password_protected = 17
negated_value LockdownError.user_denied_pairing = 18
negated_value LockdownError.pairing_dialog_response_pending = 19
negated_value LockdownError.missing_host_id = 20
negated_value LockdownError.invalid_host_id = 21
negated_value LockdownError.session_active = 22
negated_value LockdownError.session_inactive = 23
negated_value LockdownError.missing_session_id = 24
negated_value LockdownError.invalid_session_id = 25
negated_value LockdownError.missing_service = 26
negated_value LockdownError.invalid_service = 27
negated_value LockdownError.service_limit = 28
negated_value LockdownError.missing_pair_record = 29
negated_value LockdownError.save_pair_record_failed = 30
negated_value LockdownError.invalid_pair_record = 31
negated_value LockdownError.invalid_activation_record = 32
negated_value LockdownError.missing_activation_record = 33
negated_value LockdownError.service_prohibited = 34
negated_value LockdownError.escrow_locked = 35
negated_value LockdownError.pairing_prohibited_over_this_connection = 36
negated_value LockdownError.fmip_protected = 37
negated_value LockdownError.mc_protected = 38
negated_value LockdownError.mc_challenge_required = 39
negated_value LockdownError.unknown_error = 256

abbrev pub is_success : LockdownError → Bool
is_success LockdownError.success = true
is_success _ = false

-- struct st_lockdownd_error_str_map
pub record ErrorEntry : Type 0 where
  pub lockdown_errstr : Text
  pub errstr : Text
  pub errcode : LockdownError

abbrev pub entry : Text → Text → LockdownError → ErrorEntry
entry name errstr code = record { lockdown_errstr = name; errstr = errstr; errcode = code }

-- lockdownd_error_str_map, without the row of NULLs at its end.
unfoldable pub lockdownd_error_str_map : List ErrorEntry
lockdownd_error_str_map =
    entry (codes "InvalidResponse") (codes "Invalid response") LockdownError.invalid_response
    ∷ entry (codes "MissingKey") (codes "Missing key") LockdownError.missing_key
    ∷ entry (codes "MissingValue") (codes "Missing value") LockdownError.missing_value
    ∷ entry (codes "GetProhibited") (codes "Get value prohibited") LockdownError.get_prohibited
    ∷ entry (codes "SetProhibited") (codes "Set value prohibited") LockdownError.set_prohibited
    ∷ entry (codes "RemoveProhibited") (codes "Remove value prohibited")
        LockdownError.remove_prohibited
    ∷ entry (codes "ImmutableValue") (codes "Immutable value") LockdownError.immutable_value
    ∷ entry (codes "PasswordProtected") (codes "Password protected")
        LockdownError.password_protected
    ∷ entry (codes "UserDeniedPairing") (codes "User denied pairing")
        LockdownError.user_denied_pairing
    ∷ entry (codes "PairingDialogResponsePending") (codes "Pairing dialog response pending")
        LockdownError.pairing_dialog_response_pending
    ∷ entry (codes "MissingHostID") (codes "Missing HostID") LockdownError.missing_host_id
    ∷ entry (codes "InvalidHostID") (codes "Invalid HostID") LockdownError.invalid_host_id
    ∷ entry (codes "SessionActive") (codes "Session active") LockdownError.session_active
    ∷ entry (codes "SessionInactive") (codes "Session inactive") LockdownError.session_inactive
    ∷ entry (codes "MissingSessionID") (codes "Missing session ID") LockdownError.missing_session_id
    ∷ entry (codes "InvalidSessionID") (codes "Invalid session ID") LockdownError.invalid_session_id
    ∷ entry (codes "MissingService") (codes "Missing service") LockdownError.missing_service
    ∷ entry (codes "InvalidService") (codes "Invalid service") LockdownError.invalid_service
    ∷ entry (codes "ServiceLimit") (codes "Service limit reached") LockdownError.service_limit
    ∷ entry (codes "MissingPairRecord") (codes "Missing pair record")
        LockdownError.missing_pair_record
    ∷ entry (codes "SavePairRecordFailed") (codes "Saving pair record failed")
        LockdownError.save_pair_record_failed
    ∷ entry (codes "InvalidPairRecord") (codes "Invalid pair record")
        LockdownError.invalid_pair_record
    ∷ entry (codes "InvalidActivationRecord") (codes "Invalid activation record")
        LockdownError.invalid_activation_record
    ∷ entry (codes "MissingActivationRecord") (codes "Missing activation record")
        LockdownError.missing_activation_record
    ∷ entry (codes "ServiceProhibited") (codes "Service prohibited")
        LockdownError.service_prohibited
    ∷ entry (codes "EscrowLocked") (codes "Escrow lockded") LockdownError.escrow_locked
    ∷ entry (codes "PairingProhibitedOverThisConnection")
        (codes "Pairing prohibited over this connection")
        LockdownError.pairing_prohibited_over_this_connection
    ∷ entry (codes "FMiPProtected") (codes "Find My iPhone/iPod/iPad protected")
        LockdownError.fmip_protected
    ∷ entry (codes "MCProtected") (codes "MC protected") LockdownError.mc_protected
    ∷ entry (codes "MCChallengeRequired") (codes "MC challenge required")
        LockdownError.mc_challenge_required
    ∷ []

unfoldable pub strtoerr_in : List ErrorEntry → Text → LockdownError
strtoerr_in [] name = LockdownError.unknown_error
strtoerr_in (e ∷ es) name =
    if bytes_eq e.lockdown_errstr name then e.errcode else strtoerr_in es name

unfoldable pub lockdownd_strtoerr : Text → LockdownError
lockdownd_strtoerr name = strtoerr_in lockdownd_error_str_map name

unfoldable pub strerror_in : List ErrorEntry → LockdownError → Text
strerror_in [] err = codes "Unknown Error"
strerror_in (e ∷ es) err =
    if negated_value e.errcode == negated_value err then e.errstr else strerror_in es err

unfoldable pub lockdownd_strerror : LockdownError → Text
lockdownd_strerror LockdownError.success = codes "Success"
lockdownd_strerror LockdownError.invalid_arg = codes "Invalid argument"
lockdownd_strerror LockdownError.invalid_conf = codes "Invalid configuration"
lockdownd_strerror LockdownError.plist_error = codes "PropertyList error"
lockdownd_strerror LockdownError.pairing_failed = codes "Pairing failed"
lockdownd_strerror LockdownError.ssl_error = codes "SSL error"
lockdownd_strerror LockdownError.dict_error = codes "Invalid dictionary"
lockdownd_strerror LockdownError.receive_timeout = codes "Receive timeout"
lockdownd_strerror LockdownError.mux_error = codes "Mux error"
lockdownd_strerror LockdownError.no_running_session = codes "No running session"
lockdownd_strerror LockdownError.unknown_error = codes "Unknown Error"
lockdownd_strerror err = strerror_in lockdownd_error_str_map err

unfoldable pub lockdownd_error : PlistServiceError → LockdownError
lockdownd_error PlistServiceError.success = LockdownError.success
lockdownd_error PlistServiceError.invalid_arg = LockdownError.invalid_arg
lockdownd_error PlistServiceError.plist_error = LockdownError.plist_error
lockdownd_error PlistServiceError.mux_error = LockdownError.mux_error
lockdownd_error PlistServiceError.ssl_error = LockdownError.ssl_error
lockdownd_error PlistServiceError.receive_timeout = LockdownError.receive_timeout
lockdownd_error _ = LockdownError.unknown_error
