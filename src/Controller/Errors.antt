-- ===== src/Controller/Errors.antt =====
-- src/controller/error_mapper.rs: the errors of the service as statuses and codes of HTTP.
use alfavibe_hack.Prelude.{ℕ, Text, utf8}
use alfavibe_hack.Config.Policy.{PolicyError}
use alfavibe_hack.Guard.Run.{VaultError}

pub data ServiceError : Type 0 where
  unauthorized forbidden : ServiceError
  bad_request : Text → ServiceError
  payload_too_large session_not_found overloaded dependency_unavailable : ServiceError
  vault_unavailable upstream_error upstream_timeout internal : ServiceError

unfoldable pub status : ServiceError → ℕ
status ServiceError.unauthorized = 401
status ServiceError.forbidden = 403
status (ServiceError.bad_request m) = 400
status ServiceError.payload_too_large = 413
status ServiceError.session_not_found = 404
status ServiceError.overloaded = 503
status ServiceError.dependency_unavailable = 503
status ServiceError.vault_unavailable = 503
status ServiceError.upstream_error = 502
status ServiceError.upstream_timeout = 504
status ServiceError.internal = 500

unfoldable pub code : ServiceError → Text
code ServiceError.unauthorized = utf8 "UNAUTHORIZED"
code ServiceError.forbidden = utf8 "FORBIDDEN"
code (ServiceError.bad_request m) = utf8 "BAD_REQUEST"
code ServiceError.payload_too_large = utf8 "PAYLOAD_TOO_LARGE"
code ServiceError.session_not_found = utf8 "SESSION_NOT_FOUND"
code ServiceError.overloaded = utf8 "OVERLOADED"
code ServiceError.dependency_unavailable = utf8 "DEPENDENCY_UNAVAILABLE"
code ServiceError.vault_unavailable = utf8 "VAULT_UNAVAILABLE"
code ServiceError.upstream_error = utf8 "UPSTREAM_ERROR"
code ServiceError.upstream_timeout = utf8 "UPSTREAM_ERROR"
code ServiceError.internal = utf8 "INTERNAL"

unfoldable pub message : ServiceError → Text
message ServiceError.unauthorized = utf8 "Неверный ключ или неизвестная система"
message ServiceError.forbidden = utf8 "Доступ запрещён"
message (ServiceError.bad_request m) = m
message ServiceError.payload_too_large = utf8 "Тело запроса слишком большое"
message ServiceError.session_not_found = utf8 "Сессия не найдена или истекла"
message ServiceError.overloaded = utf8 "Сервис перегружен, повторите позже"
message ServiceError.dependency_unavailable = utf8 "Зависимость временно недоступна"
message ServiceError.vault_unavailable =
    utf8 "Хранилище масок временно недоступно, повторите запрос позже"
message ServiceError.upstream_error = utf8 "Ошибка вышестоящего сервиса"
message ServiceError.upstream_timeout = utf8 "Таймаут вышестоящего сервиса"
message ServiceError.internal = utf8 "Внутренняя ошибка"

-- `From<PolicyError>`
unfoldable pub of_policy : PolicyError → ServiceError
of_policy PolicyError.unknown_system = ServiceError.unauthorized
of_policy PolicyError.system_disabled = ServiceError.forbidden
of_policy PolicyError.route_forbidden = ServiceError.forbidden

-- What the handlers make of a failed call that masks, and of one that demasks.
unfoldable pub of_masking : VaultError → ServiceError
of_masking (VaultError.unavailable m) = ServiceError.vault_unavailable
of_masking e = ServiceError.internal

unfoldable pub of_demasking : VaultError → ServiceError
of_demasking (VaultError.unavailable m) = ServiceError.session_not_found
of_demasking e = ServiceError.internal
