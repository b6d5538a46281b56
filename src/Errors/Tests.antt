-- ===== src/Errors/Tests.antt =====
-- Witnesses for the responses to errors.
use fastapi_hyperf.Common.{ℕ, ◌≡◌, refl, arith}
use fastapi_hyperf.Errors.{
  HttpException, user_not_found, resource_not_found, domain_exception_handler,
  generic_error_message, base_class, http_exception, not_found_exception, duplicate_value_exception,
  unprocessable_entity_exception, forbidden_exception,
}
use fastapi_hyperf.Errors.Mapping.{domain_exception_handler-base_class}

abbrev status : HttpException → ℕ
status (http_exception code detail) = code
status (not_found_exception detail) = 404
status (duplicate_value_exception detail) = 422
status (unprocessable_entity_exception detail) = 422
status (forbidden_exception detail) = 403

domain_exception_handler-base_class_example :
    (domain_exception_handler status user_not_found "no ann" "0123456789"
      ≡ domain_exception_handler status resource_not_found "no ann" "0123456789")
    × ((domain_exception_handler status user_not_found "no ann" "0123456789").message
        ≡ generic_error_message)
unfolding base_class
domain_exception_handler-base_class_example =
    domain_exception_handler-base_class status user_not_found resource_not_found "no ann"
      "0123456789" refl (λ h. ground (arith, h))
