-- ===== src/Errors/Classify.antt =====
-- classify-exception.ts: what the client and the log see of a thrown value.
use Prim.Native.String.{◌++◌ as concat}
use laundry_api.Base.{ℕ, String, Bool, true, false, List, [], ◌∷◌, str_eq, if◌then◌else◌}
use laundry_api.Errors.{
  Exception, HttpBody, Thrown, domain, http, known_request, message_body, messages_body, other_body,
  text_body, type_error,
}
use laundry_api.Errors.Codes.{code_of, status_of}
use laundry_api.Errors.Messages.{message_of}

pub data LogLevel : Type 0 where
  warn error silent : LogLevel

pub record ClassifiedError : Type 0 where
  pub status : ℕ
  pub code : String
  pub message : String
  pub log_level : LogLevel
  pub log_original : Bool

-- `texts.join('; ')`.
unfoldable pub join : List String → String
join [] = ""
join (t ∷ []) = t
join (t ∷ u ∷ texts) = concat t (concat "; " (join (u ∷ texts)))

-- `extractHttpMessage`.
unfoldable pub extract_http_message : HttpBody → String → String
unfolding join
extract_http_message (text_body t) fallback = t
extract_http_message (messages_body texts) fallback = join texts
extract_http_message (message_body t) fallback = t
extract_http_message other_body fallback = fallback

abbrev not_found : ClassifiedError
not_found = record {
  status = 404;
  code = "RESOURCE_NOT_FOUND";
  message = "Resource not found";
  log_level = warn;
  log_original = true;
}

abbrev unique_conflict : ClassifiedError
unique_conflict = record {
  status = 409;
  code = "UNIQUE_CONFLICT";
  message = "Unique constraint violation";
  log_level = warn;
  log_original = true;
}

abbrev internal_db_error : ClassifiedError
internal_db_error = record {
  status = 500;
  code = "INTERNAL_DB_ERROR";
  message = "Internal server error";
  log_level = error;
  log_original = true;
}

-- The branch of the known request errors.
unfoldable pub classify_request : String → String → ClassifiedError
classify_request code own_message =
    if str_eq code "P2025"
    then not_found
    else if str_eq code "P2002"
    then unique_conflict
    else internal_db_error

module _ (id_text number_text : ℕ → String) where
  -- The branches of `classifyException`.
  unfoldable pub classify_thrown : Thrown → String → ClassifiedError
  unfolding classify_request
  classify_thrown (domain e) own_message = record {
    status = status_of e;
    code = code_of e;
    message = message_of id_text e;
    log_level = silent;
    log_original = false;
  }
  classify_thrown (http status body message) own_message = record {
    status = status;
    code = concat "HTTP_" (number_text status);
    message = extract_http_message body message;
    log_level = silent;
    log_original = false;
  }
  classify_thrown (known_request code) own_message = classify_request code own_message
  classify_thrown type_error own_message = record {
    status = 500;
    code = "INTERNAL_ERROR";
    message = "Internal server error";
    log_level = error;
    log_original = true;
  }

  -- `classifyException`, with the texts of ids and of numbers.
  unfoldable pub classify_exception : Exception → ClassifiedError
  classify_exception x = classify_thrown x.thrown x.own_message
