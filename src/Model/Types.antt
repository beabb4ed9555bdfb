-- ===== src/Model/Types.antt =====
-- agent/src/model.rs: the data of a job and of the events about it.
use ffmpeg_docker_playground.Base.{ℕ, Bool, Option, List, String}

pub record Retry : Type 0 where
  pub max_attempts : ℕ
  pub delay_ms : ℕ

-- `headers` is a sorted map in the source: here its pairs in the order of iteration.
pub record Endpoint : Type 0 where
  pub url : String
  pub headers : List (String × String)
  pub method : Option String
  pub retry : Option Retry

pub record Job : Type 0 where
  pub id : String
  pub input : Endpoint
  pub output : Endpoint
  pub callback : Endpoint
  pub args : List String
  pub output_extension : String

pub record ResponseHeader : Type 0 where
  pub name : String
  pub value_base64 : String

pub record UploadResponse : Type 0 where
  pub status : ℕ
  pub headers : List ResponseHeader
  pub body_base64 : String
  pub body_truncated : Bool

-- On Unix the exit code of a process is 0 to 255.
pub record Outcome : Type 0 where
  pub error : Option String
  pub ffmpeg_exit_code : Option ℕ
  pub upload_response : Option UploadResponse

pub record Event : Type 0 where
  pub version : ℕ
  pub id : String
  pub sequence : ℕ
  pub state : String
  pub terminal : Bool
  pub result : Option Outcome
  pub ffmpeg_log : Option String
  pub ffmpeg_log_tail : Option String
