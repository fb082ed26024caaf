-- ===== src/Dbus/Error.antt =====
-- src/dbus/error.rs: the errors of the facade, and the domain errors that become one.
use network_manager_rs.Common.{◌++◌, Str, str}
use network_manager_rs.Connection.Profile.{ProfileValidationError}
use network_manager_rs.Connection.Store.{StoreError}
use network_manager_rs.Connection.Activation.{ActivationError}
use network_manager_rs.Linux.Model.{NetlinkError}

pub data FacadeError : Type 0 where
  unknown_connection invalid_setting invalid_property missing_setting unknown_device :
      Str → FacadeError
  unknown_active not_active already_active permission_denied not_supported internal :
      Str → FacadeError

-- The name of the error on the bus.
unfoldable pub error_name : FacadeError → Str
error_name (unknown_connection d) =
    str "org.freedesktop.NetworkManager.Settings.Connection.UnknownConnection"
error_name (invalid_setting d) =
    str "org.freedesktop.NetworkManager.Settings.Connection.InvalidSetting"
error_name (invalid_property d) =
    str "org.freedesktop.NetworkManager.Settings.Connection.InvalidProperty"
error_name (missing_setting d) =
    str "org.freedesktop.NetworkManager.Settings.Connection.MissingSetting"
error_name (unknown_device d) = str "org.freedesktop.NetworkManager.UnknownDevice"
error_name (unknown_active d) = str "org.freedesktop.NetworkManager.UnknownActiveConnection"
error_name (not_active d) = str "org.freedesktop.NetworkManager.NotActive"
error_name (already_active d) = str "org.freedesktop.NetworkManager.AlreadyActive"
error_name (permission_denied d) = str "org.freedesktop.NetworkManager.PermissionDenied"
error_name (not_supported d) = str "org.freedesktop.NetworkManager.NotSupported"
error_name (internal d) = str "org.freedesktop.DBus.Error.Failed"

unfoldable pub description : FacadeError → Str
description (unknown_connection d) = d
description (invalid_setting d) = d
description (invalid_property d) = d
description (missing_setting d) = d
description (unknown_device d) = d
description (unknown_active d) = d
description (not_active d) = d
description (already_active d) = d
description (permission_denied d) = d
description (not_supported d) = d
description (internal d) = d

unfoldable pub not_supported_by : Str → FacadeError
not_supported_by operation = not_supported (operation ++ str " is not supported by this daemon")

-- The texts of the domain errors, and of a text as `{:?}` writes it.
pub record ErrorTexts : Type 0 where
  pub validation : ProfileValidationError → Str
  pub store : StoreError → Str
  pub activation : ActivationError → Str
  pub netlink : NetlinkError → Str
  pub quoted : Str → Str

unfoldable pub from_store : ErrorTexts → StoreError → FacadeError
from_store texts (StoreError.not_found id) = unknown_connection id
from_store texts (StoreError.invalid reason) = invalid_setting (texts.validation reason)
from_store texts e = invalid_setting (texts.store e)

unfoldable pub from_validation : ErrorTexts → ProfileValidationError → FacadeError
from_validation texts e = invalid_setting (texts.validation e)

unfoldable pub from_netlink : ErrorTexts → NetlinkError → FacadeError
from_netlink texts e = internal (texts.netlink e)

unfoldable pub from_activation : ErrorTexts → ActivationError → FacadeError
unfolding from_store
from_activation texts (ActivationError.profile_not_found id) = unknown_connection id
from_activation texts (ActivationError.already_active id) = already_active id
from_activation texts (ActivationError.store_error e) = from_store texts e
from_activation texts (ActivationError.engine_error reason) = not_supported reason
from_activation texts (ActivationError.device_incompatible id device) =
    invalid_property (texts.activation (ActivationError.device_incompatible id device))
from_activation texts (ActivationError.no_suitable_profile device) =
    invalid_setting (texts.activation (ActivationError.no_suitable_profile device))
from_activation texts (ActivationError.unknown_active_connection id) =
    unknown_active (texts.activation (ActivationError.unknown_active_connection id))
from_activation texts (ActivationError.invalid_state id state) =
    not_active (texts.activation (ActivationError.invalid_state id state))
from_activation texts (ActivationError.state_error e) =
    not_active (texts.activation (ActivationError.state_error e))
