-- ===== src/Errors/Mapping.antt =====
-- Which entry of the table answers an error.
use fastapi_hyperf.Common.{ℕ, String, false, some, ◌≡◌, ◌≢◌, refl, arith, subst}
use fastapi_hyperf.Errors.{
  ErrorClass, HttpException, domain, resource_not_found, resource_exists, validation,
  permission_denied, user_not_found, user_exists, tier_not_found, rate_limit_not_found,
  insufficient_credits, usage_limit_exceeded, base_class, base_of_base, has_base, is_instance,
  map_exception, first_match, domain_exception_handler, respond, generic_error_message,
}

-- An error of a class whose base class is not `DomainError` itself is mapped as one of its base class is: the
-- entries of the table for such classes are not used.
map_exception-base_class :
    (e b : ErrorClass) (message : String)
    → base_class e ≡ some b
    → b ≢ domain
    → map_exception e message ≡ map_exception b message
unfolding map_exception first_match is_instance has_base base_of_base base_class
map_exception-base_class domain b message h special = ground (arith, h, special)
map_exception-base_class resource_not_found b message h special = ground (arith, h, special)
map_exception-base_class resource_exists b message h special = ground (arith, h, special)
map_exception-base_class validation b message h special = ground (arith, h, special)
map_exception-base_class permission_denied b message h special = ground (arith, h, special)
map_exception-base_class insufficient_credits b message h special = ground (arith, h, special)
map_exception-base_class usage_limit_exceeded b message h special = ground (arith, h, special)
map_exception-base_class user_not_found b message h special =
    let same : resource_not_found ≡ b = ground (arith, h) in
    subst (λ c. map_exception user_not_found message ≡ map_exception c message) same refl
map_exception-base_class user_exists b message h special =
    let same : resource_exists ≡ b = ground (arith, h) in
    subst (λ c. map_exception user_exists message ≡ map_exception c message) same refl
map_exception-base_class tier_not_found b message h special =
    let same : resource_not_found ≡ b = ground (arith, h) in
    subst (λ c. map_exception tier_not_found message ≡ map_exception c message) same refl
map_exception-base_class rate_limit_not_found b message h special =
    let same : resource_not_found ≡ b = ground (arith, h) in
    subst (λ c. map_exception rate_limit_not_found message ≡ map_exception c message) same refl

not_credits :
    (e b : ErrorClass)
    → base_class e ≡ some b
    → b ≢ domain
    → (is_instance e insufficient_credits ≡ false) × (is_instance b insufficient_credits ≡ false)
unfolding is_instance has_base base_of_base base_class
not_credits domain b h special = ground (arith, h, special)
not_credits resource_not_found b h special = ground (arith, h, special)
not_credits resource_exists b h special = ground (arith, h, special)
not_credits validation b h special = ground (arith, h, special)
not_credits permission_denied b h special = ground (arith, h, special)
not_credits insufficient_credits b h special = ground (arith, h, special)
not_credits usage_limit_exceeded b h special = ground (arith, h, special)
not_credits user_not_found b h special =
    let same : resource_not_found ≡ b = ground (arith, h) in
    (refl, subst (λ c. is_instance c insufficient_credits ≡ false) same refl)
not_credits user_exists b h special =
    let same : resource_exists ≡ b = ground (arith, h) in
    (refl, subst (λ c. is_instance c insufficient_credits ≡ false) same refl)
not_credits tier_not_found b h special =
    let same : resource_not_found ≡ b = ground (arith, h) in
    (refl, subst (λ c. is_instance c insufficient_credits ≡ false) same refl)
not_credits rate_limit_not_found b h special =
    let same : resource_not_found ≡ b = ground (arith, h) in
    (refl, subst (λ c. is_instance c insufficient_credits ≡ false) same refl)

-- The response to an error of a class whose base class is not `DomainError` itself is the response to an error of
-- its base class with the same text and identifier, although the table has an entry for the class, and its
-- message is the generic one.
pub domain_exception_handler-base_class :
    (status_of : HttpException → ℕ) (e b : ErrorClass) (message uuid : String)
    → base_class e ≡ some b
    → b ≢ domain
    → (domain_exception_handler status_of e message uuid
        ≡ domain_exception_handler status_of b message uuid)
      × ((domain_exception_handler status_of e message uuid).message ≡ generic_error_message)
unfolding domain_exception_handler respond
domain_exception_handler-base_class status_of e b message uuid h special =
    let mapped = map_exception-base_class e b message h special in
    let (own, base) = not_credits e b h special in rw (own, base, mapped) (refl, refl)
