-- ===== src/InstallationProxy/Error.antt =====
-- src/installation_proxy.c: the codes of the installation proxy and their names on the wire.
use libimobiledevice.Common.{Bool, true, false, List, [], ◌∷◌, if◌then◌else◌}
use libimobiledevice.Common.Bytes.{bytes_eq, codes}
use libimobiledevice.PlistService.{PlistServiceError}
use libimobiledevice.DeviceLink.{Text}

-- The codes of instproxy_error_t.
pub data InstproxyError : Type 0 where
  success invalid_arg plist_error conn_failed op_in_progress op_failed receive_timeout
        already_archived api_internal_error application_already_installed application_move_failed
        application_sinf_capture_failed application_sandbox_failed application_verification_failed
        archive_destruction_failed bundle_verification_failed carrier_bundle_copy_failed
        carrier_bundle_directory_creation_failed carrier_bundle_missing_supported_sims
        comm_center_notification_failed container_creation_failed container_p0wn_failed
        container_removal_failed embedded_profile_install_failed executable_twiddle_failed
        existence_check_failed install_map_update_failed manifest_capture_failed
        map_generation_failed missing_bundle_executable missing_bundle_identifier
        missing_bundle_path missing_container notification_failed package_extraction_failed
        package_inspection_failed package_move_failed path_conversion_failed
        restore_container_failed seatbelt_profile_removal_failed stage_creation_failed
        symlink_failed unknown_command itunes_artwork_capture_failed itunes_metadata_capture_failed
        device_os_version_too_low device_family_not_supported package_patch_failed
        incorrect_architecture plugin_copy_failed breadcrumb_failed breadcrumb_unlock_failed
        geojson_capture_failed newsstand_artwork_capture_failed missing_command not_entitled
        missing_package_path missing_container_path missing_application_identifier
        missing_attribute_value lookup_failed dict_creation_failed install_prohibited
        uninstall_prohibited missing_bundle_version unknown_error :
      InstproxyError

abbrev pub is_success : InstproxyError → Bool
is_success InstproxyError.success = true
is_success _ = false

unfoldable pub instproxy_error : PlistServiceError → InstproxyError
instproxy_error PlistServiceError.success = InstproxyError.success
instproxy_error PlistServiceError.invalid_arg = InstproxyError.invalid_arg
instproxy_error PlistServiceError.plist_error = InstproxyError.plist_error
instproxy_error PlistServiceError.mux_error = InstproxyError.conn_failed
instproxy_error PlistServiceError.receive_timeout = InstproxyError.receive_timeout
instproxy_error _ = InstproxyError.unknown_error

-- The names in the order in which they are compared.
abbrev pub error_names : List (Text × InstproxyError)
error_names =
    (codes "AlreadyArchived", InstproxyError.already_archived)
    ∷ (codes "APIInternalError", InstproxyError.api_internal_error)
    ∷ (codes "ApplicationAlreadyInstalled", InstproxyError.application_already_installed)
    ∷ (codes "ApplicationMoveFailed", InstproxyError.application_move_failed)
    ∷ (codes "ApplicationSINFCaptureFailed", InstproxyError.application_sinf_capture_failed)
    ∷ (codes "ApplicationSandboxFailed", InstproxyError.application_sandbox_failed)
    ∷ (codes "ApplicationVerificationFailed", InstproxyError.application_verification_failed)
    ∷ (codes "ArchiveDestructionFailed", InstproxyError.archive_destruction_failed)
    ∷ (codes "BundleVerificationFailed", InstproxyError.bundle_verification_failed)
    ∷ (codes "CarrierBundleCopyFailed", InstproxyError.carrier_bundle_copy_failed)
    ∷ (
      codes "CarrierBundleDirectoryCreationFailed",
      InstproxyError.carrier_bundle_directory_creation_failed,
    )
    ∷ (
      codes "CarrierBundleMissingSupportedSIMs",
      InstproxyError.carrier_bundle_missing_supported_sims,
    )
    ∷ (codes "CommCenterNotificationFailed", InstproxyError.comm_center_notification_failed)
    ∷ (codes "ContainerCreationFailed", InstproxyError.container_creation_failed)
    ∷ (codes "ContainerP0wnFailed", InstproxyError.container_p0wn_failed)
    ∷ (codes "ContainerRemovalFailed", InstproxyError.container_removal_failed)
    ∷ (codes "EmbeddedProfileInstallFailed", InstproxyError.embedded_profile_install_failed)
    ∷ (codes "ExecutableTwiddleFailed", InstproxyError.executable_twiddle_failed)
    ∷ (codes "ExistenceCheckFailed", InstproxyError.existence_check_failed)
    ∷ (codes "InstallMapUpdateFailed", InstproxyError.install_map_update_failed)
    ∷ (codes "ManifestCaptureFailed", InstproxyError.manifest_capture_failed)
    ∷ (codes "MapGenerationFailed", InstproxyError.map_generation_failed)
    ∷ (codes "MissingBundleExecutable", InstproxyError.missing_bundle_executable)
    ∷ (codes "MissingBundleIdentifier", InstproxyError.missing_bundle_identifier)
    ∷ (codes "MissingBundlePath", InstproxyError.missing_bundle_path)
    ∷ (codes "MissingContainer", InstproxyError.missing_container)
    ∷ (codes "NotificationFailed", InstproxyError.notification_failed)
    ∷ (codes "PackageExtractionFailed", InstproxyError.package_extraction_failed)
    ∷ (codes "PackageInspectionFailed", InstproxyError.package_inspection_failed)
    ∷ (codes "PackageMoveFailed", InstproxyError.package_move_failed)
    ∷ (codes "PathConversionFailed", InstproxyError.path_conversion_failed)
    ∷ (codes "RestoreContainerFailed", InstproxyError.restore_container_failed)
    ∷ (codes "SeatbeltProfileRemovalFailed", InstproxyError.seatbelt_profile_removal_failed)
    ∷ (codes "StageCreationFailed", InstproxyError.stage_creation_failed)
    ∷ (codes "SymlinkFailed", InstproxyError.symlink_failed)
    ∷ (codes "UnknownCommand", InstproxyError.unknown_command)
    ∷ (codes "iTunesArtworkCaptureFailed", InstproxyError.itunes_artwork_capture_failed)
    ∷ (codes "iTunesMetadataCaptureFailed", InstproxyError.itunes_metadata_capture_failed)
    ∷ (codes "DeviceOSVersionTooLow", InstproxyError.device_os_version_too_low)
    ∷ (codes "DeviceFamilyNotSupported", InstproxyError.device_family_not_supported)
    ∷ (codes "PackagePatchFailed", InstproxyError.package_patch_failed)
    ∷ (codes "IncorrectArchitecture", InstproxyError.incorrect_architecture)
    ∷ (codes "PluginCopyFailed", InstproxyError.plugin_copy_failed)
    ∷ (codes "BreadcrumbFailed", InstproxyError.breadcrumb_failed)
    ∷ (codes "BreadcrumbUnlockFailed", InstproxyError.breadcrumb_unlock_failed)
    ∷ (codes "GeoJSONCaptureFailed", InstproxyError.geojson_capture_failed)
    ∷ (codes "NewsstandArtworkCaptureFailed", InstproxyError.newsstand_artwork_capture_failed)
    ∷ (codes "MissingCommand", InstproxyError.missing_command)
    ∷ (codes "NotEntitled", InstproxyError.not_entitled)
    ∷ (codes "MissingPackagePath", InstproxyError.missing_package_path)
    ∷ (codes "MissingContainerPath", InstproxyError.missing_container_path)
    ∷ (codes "MissingApplicationIdentifier", InstproxyError.missing_application_identifier)
    ∷ (codes "MissingAttributeValue", InstproxyError.missing_attribute_value)
    ∷ (codes "LookupFailed", InstproxyError.lookup_failed)
    ∷ (codes "DictCreationFailed", InstproxyError.dict_creation_failed)
    ∷ (codes "InstallProhibited", InstproxyError.install_prohibited)
    ∷ (codes "UninstallProhibited", InstproxyError.uninstall_prohibited)
    ∷ (codes "MissingBundleVersion", InstproxyError.missing_bundle_version)
    ∷ []

unfoldable pub strtoerr_in : List (Text × InstproxyError) → Text → InstproxyError
strtoerr_in [] name = InstproxyError.unknown_error
strtoerr_in ((text, err) ∷ entries) name =
    let later = strtoerr_in entries name in if bytes_eq name text then err else later

unfoldable pub instproxy_strtoerr : Text → InstproxyError
instproxy_strtoerr name = strtoerr_in error_names name
