-- ===== src/Engine/Upload.antt =====
-- agent/src/engine.rs: `upload`, one attempt to send the output, and the receipt of its answer.
-- The request goes out by reqwest, which takes as much of the file as it likes.
pub mod Laws
use ffmpeg_docker_playground.Base.{
  ℕ, suc, ◌-◌, min, Bool, true, false, not, ◌&&◌, Option, none, some, List, [], ◌∷◌, ◌++◌, map,
  String, ltb, leb, length, take, Result, ok, err, if◌then◌else◌,
}
use ffmpeg_docker_playground.Model.Types.{ResponseHeader, UploadResponse, Outcome}
use ffmpeg_docker_playground.Engine.Download.{touched}
use ffmpeg_docker_playground.Engine.Retry.{StatusClass, TransferResult, retry_status}

-- RESPONSE_LIMIT
abbrev pub response_limit : ℕ
response_limit = 65536

pub record Answer : Type 0 where
  pub status : ℕ
  pub headers : List (String × List ℕ)
  pub body : List (Option (List ℕ))

-- The request: the declared size, and what each read of the file gives.
pub record Put : Type 0 where
  pub content_length : ℕ
  pub body : List (Option (List ℕ))

-- How many reads of the file the client makes, and the answer that it gets.
pub record Exchange : Type 0 where
  pub pulled : ℕ
  pub answer : Option Answer

-- The output file, if it opens, the way of the request, and base64's encoding.
pub record Env : Type 0 where
  pub classes : StatusClass
  pub opens : Option (List (Option (List ℕ)))
  pub send : Put → Exchange
  pub encode : List ℕ → String

-- The outcome, and how often `last_progress` was set.
pub record Sent : Type 0 where
  pub outcome : Outcome
  pub touches : ℕ

-- `inspect`, over the reads that the client makes.
unfoldable pub inspect : List (Option (List ℕ)) → ℕ → ℕ
inspect [] n = n
inspect (none ∷ reads) n = inspect reads n
inspect (some chunk ∷ reads) n = inspect reads (touched chunk n)

-- The loop over the chunks of the answer: what is kept, and whether the answer was cut.
unfoldable pub collect : ℕ → ℕ → List ℕ → List (Option (List ℕ)) → Option (List ℕ × Bool) × ℕ
collect limit touches body [] = (some (body, false), touches)
collect limit touches body (none ∷ rest) = (none, touches)
collect limit touches body (some chunk ∷ rest) =
    let n = min (length chunk) (limit - length body) in
    let more = collect limit (touched chunk touches) (body ++ take n chunk) rest in
    if ltb n (length chunk)
    then (some (body ++ take n chunk, true), touched chunk touches)
    else more

abbrev pub receipt : Env → Answer → List ℕ → Bool → UploadResponse
receipt env answer body truncated = record {
  status = answer.status;
  headers = map (λ h. record { name = h.0; value_base64 = env.encode h.1 }) answer.headers;
  body_base64 = env.encode body;
  body_truncated = truncated;
}

-- `(200..300).contains(&status)`
abbrev pub is_2xx : ℕ → Bool
is_2xx status = leb 200 status && ltb status 300

pub conclude : Env → Outcome → Answer → Option (List ℕ × Bool) × ℕ → TransferResult × Sent
conclude env outcome answer (none, touches) =
    (err ("output PUT response interrupted", true), record { outcome = outcome; touches = touches })
conclude env outcome answer (some (body, truncated), touches) = (
  if is_2xx answer.status
      then ok tt
      else err ("output PUT returned non-success status", retry_status env.classes answer.status),
  record {
    outcome = record outcome { upload_response = some (receipt env answer body truncated) };
    touches = touches;
  },
)

abbrev pub request_of : ℕ → List (Option (List ℕ)) → Put
request_of size file = record { content_length = size; body = file }

-- The request is on its way.
unfoldable pub exchange : Env → List (Option (List ℕ)) → Sent → Exchange → TransferResult × Sent
unfolding conclude collect inspect
exchange env file s x =
    let touches = inspect (take x.pulled file) s.touches in
    elim x.answer [
      | none ↦ (err ("output PUT failed", true), record s { touches = touches })
      | some answer ↦ conclude env s.outcome answer (collect response_limit touches [] answer.body)
    ]

unfoldable pub upload : Env → ℕ → Sent → TransferResult × Sent
unfolding exchange
upload env size s = elim env.opens [
  | none ↦ (err ("cannot open output file", false), s)
  | some file ↦ exchange env file s (env.send (request_of size file))
]
