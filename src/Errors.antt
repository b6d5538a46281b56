-- ===== src/Errors.antt =====
-- app/utils/exceptions.py, app/utils/constants.py and app/utils/error_handler.py: the HTTP response to an error of
-- the domain. The exceptions of app/core/auth/http_exceptions.py that FastCRUD defines are constructors; their
-- status codes are a parameter.
pub mod Mapping
mod Tests
use fastapi_hyperf.Common.{
  ℕ, String, Bool, true, false, ◌||◌, Option, none, some, List, [], ◌∷◌, eqb, truthy, if◌then◌else◌,
}
use fastapi_hyperf.Common.Slices.{until}

-- the subclasses of DomainError, and the class itself
pub data ErrorClass : Type 0 where
  domain resource_not_found resource_exists validation permission_denied : ErrorClass
  user_not_found user_exists tier_not_found rate_limit_not_found : ErrorClass
  insufficient_credits usage_limit_exceeded : ErrorClass

-- the base class that a class is declared with
unfoldable pub base_class : ErrorClass → Option ErrorClass
base_class domain = none
base_class resource_not_found = some domain
base_class resource_exists = some domain
base_class validation = some domain
base_class permission_denied = some domain
base_class user_not_found = some resource_not_found
base_class user_exists = some resource_exists
base_class tier_not_found = some resource_not_found
base_class rate_limit_not_found = some resource_not_found
base_class insufficient_credits = some domain
base_class usage_limit_exceeded = some domain

abbrev index : ErrorClass → ℕ
index domain = 0
index resource_not_found = 1
index resource_exists = 2
index validation = 3
index permission_denied = 4
index user_not_found = 5
index user_exists = 6
index tier_not_found = 7
index rate_limit_not_found = 8
index insufficient_credits = 9
index usage_limit_exceeded = 10

-- isinstance(error, c) for an error of a class: the class, its base or the base of that
unfoldable pub has_base : Option ErrorClass → ErrorClass → Bool
has_base none c = false
has_base (some b) c = eqb (index b) (index c)

unfoldable pub base_of_base : Option ErrorClass → Option ErrorClass
base_of_base none = none
base_of_base (some b) = base_class b

unfoldable pub is_instance : ErrorClass → ErrorClass → Bool
is_instance e c =
    eqb (index e) (index c) || has_base (base_class e) c || has_base (base_of_base (base_class e)) c

pub data HttpException : Type 0 where
  http_exception : ℕ → String → HttpException
  not_found_exception duplicate_value_exception : String → HttpException
  unprocessable_entity_exception forbidden_exception : String → HttpException

-- message or text
unfoldable pub message_or : String → String → String
message_or message text = if truthy message then message else text

abbrev pub generic_error_message : String
generic_error_message = "Something went wrong. Please try again."

-- the mapper of each class that the table has
unfoldable pub mapper : ErrorClass → String → HttpException
mapper insufficient_credits message =
    http_exception 402 (message_or message "Insufficient credits.")
mapper resource_not_found message = not_found_exception "The requested resource was not found."
mapper resource_exists message = duplicate_value_exception "This resource already exists."
mapper validation message = unprocessable_entity_exception message
mapper permission_denied message = forbidden_exception "You don't have permission for this action."
mapper user_not_found message = not_found_exception "User not found."
mapper user_exists message =
    duplicate_value_exception
      (message_or message "A user with this email or username already exists.")
mapper tier_not_found message = not_found_exception "The requested tier was not found."
mapper rate_limit_not_found message = not_found_exception "Rate limit configuration not found."
mapper domain message = http_exception 500 generic_error_message
mapper usage_limit_exceeded message = http_exception 500 generic_error_message

-- the keys of EXCEPTION_MAPPING in their order
abbrev exception_mapping : List ErrorClass
exception_mapping =
    insufficient_credits
    ∷ (resource_not_found
        ∷ (resource_exists
            ∷ (validation
                ∷ (permission_denied
                    ∷ (user_not_found
                        ∷ (user_exists ∷ (tier_not_found ∷ (rate_limit_not_found ∷ []))))))))

unfoldable pub first_match : List ErrorClass → ErrorClass → String → HttpException
first_match [] e message = http_exception 500 generic_error_message
first_match (c ∷ cs) e message =
    let later = first_match cs e message in if is_instance e c then mapper c message else later

unfoldable pub map_exception : ErrorClass → String → HttpException
map_exception e message = first_match exception_mapping e message

-- the body of the response, beside `"data": None`
pub record ErrorResponse : Type 0 where
  pub status_code : ℕ
  pub code : ℕ
  pub message : String
  pub support_id : String

module _ (status_of : HttpException → ℕ) where
  abbrev detail_of : HttpException → String
  detail_of (http_exception code detail) = detail
  detail_of (not_found_exception detail) = detail
  detail_of (duplicate_value_exception detail) = detail
  detail_of (unprocessable_entity_exception detail) = detail
  detail_of (forbidden_exception detail) = detail

  unfoldable pub respond : HttpException → String → String → ErrorResponse
  respond exception message uuid = record {
    status_code = status_of exception;
    code = status_of exception;
    message = message;
    support_id = until 8 uuid;
  }

  unfoldable pub domain_exception_handler : ErrorClass → String → String → ErrorResponse
  domain_exception_handler e message uuid =
      let exception = map_exception e message in
      if is_instance e insufficient_credits
      then respond exception (detail_of exception) uuid
      else respond exception generic_error_message uuid

  unfoldable http_exception_handler : HttpException → String → ErrorResponse
  http_exception_handler exception uuid = respond exception (detail_of exception) uuid
