-- ===== src/Server/Http.antt =====
-- The responses of the handlers (actix-web): an `Err` of a handler becomes its status and message.
use web_queue.Common.{Bytes, List, Bool, Result}

-- `BaseQueueResponse` of sonya-meta/src/response.rs
pub record BaseQueueResponse : Type 0 where
  pub success : Bool

pub data HttpError : Type 0 where
  not_found : Bytes → HttpError
  gone : Bytes → HttpError
  forbidden : Bytes → HttpError
  internal_server_error : Bytes → HttpError

pub data HttpResponse (T : Type 0) : Type 0 where
  created : BaseQueueResponse → HttpResponse T
  success_json : BaseQueueResponse → HttpResponse T
  messages_json : List T → HttpResponse T

abbrev pub Responder : Type 0 → Type 0
Responder T = Result HttpError (HttpResponse T)
