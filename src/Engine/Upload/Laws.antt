-- ===== src/Engine/Upload/Laws.antt =====
-- The receipt of an upload.
use ffmpeg_docker_playground.Base.Cut.{take_all, take-append}
use ffmpeg_docker_playground.Base.{
  ℕ, ◌+◌, ◌-◌, ◌≤◌, ◌≡◌, refl, sym, ap, ◌∙◌, min, inl, inr, true, false, Option, none, some, List,
  [], ◌∷◌, ◌++◌, append-nil, append_assoc, ltb, length, take, length-append, ok, err, arith,
  Option-cases, Bool-cases, Bool, if◌then◌else◌,
}
use mathlib.Core.Path.{ap₂}
use native.Mathlib.Decide.{dec_le}
use ffmpeg_docker_playground.Model.Types.{UploadResponse, Outcome}
use ffmpeg_docker_playground.Engine.Retry.{TransferResult, retry_status}
use ffmpeg_docker_playground.Engine.Download.Laws.{whole}
use ffmpeg_docker_playground.Engine.Download.{touched}
use ffmpeg_docker_playground.Engine.Upload.{
  Exchange, Sent, inspect, request_of, exchange, response_limit, Answer, Env, collect, receipt,
  is_2xx, conclude, upload,
}

-- What the loop keeps of the answer so far.
kept :
    (limit : ℕ) (acc chunk more : List ℕ)
    → length acc ≤ limit
    → limit - length acc ≤ length chunk
    → acc ++ take (limit - length acc) chunk ≡ take limit (acc ++ (chunk ++ more))
kept limit acc chunk more fits full =
    let none_left : limit - length acc - length chunk ≡ 0 = omega arith in
    sym (
      take-append limit acc (chunk ++ more)
      ∙ ap₂ (λ a b. a ++ b) (take_all limit acc fits) (take-append (limit - length acc) chunk more)
      ∙ ap (λ k. acc ++ (take (limit - length acc) chunk ++ take k more)) none_left
      ∙ ap (λ t. acc ++ t) (append-nil _))

whole-some :
    (chunk bytes : List ℕ) (rest : List (Option (List ℕ)))
    → whole (some chunk ∷ rest) ≡ some bytes
    → (more : List ℕ) × (whole rest ≡ some more) × (chunk ++ more ≡ bytes)
unfolding whole
whole-some chunk bytes rest h = elim (Option-cases (whole rest)) [
  | inl e ↦ absurd (ground (arith, e))
  | inr (more, e) ↦ (more, e, ground (arith, e))
]

collect-cut :
    (limit n : ℕ) (acc chunk : List ℕ) (rest : List (Option (List ℕ)))
    → limit - length acc + 1 ≤ length chunk
    → (collect limit n acc (some chunk ∷ rest)).0
      ≡ some (acc ++ take (limit - length acc) chunk, true)
unfolding collect
collect-cut limit n acc chunk rest over =
    let e : min (length chunk) (limit - length acc) ≡ limit - length acc = omega arith in
    let short : ltb (limit - length acc) (length chunk) ≡ true = ground arith in rw (e, short)

collect-next :
    (limit n : ℕ) (acc chunk : List ℕ) (rest : List (Option (List ℕ)))
    → length chunk ≤ limit - length acc
    → collect limit n acc (some chunk ∷ rest) ≡ collect limit (touched chunk n) (acc ++ chunk) rest
unfolding collect
collect-next limit n acc chunk rest fits =
    let e : min (length chunk) (limit - length acc) ≡ length chunk = omega arith in
    let long : ltb (length chunk) (length chunk) ≡ false = ground arith in
    rw (e, long, take_all (length chunk) chunk (omega arith))

collect_lem :
    (limit n : ℕ) (acc : List ℕ) (body : List (Option (List ℕ))) (bytes : List ℕ)
    → length acc ≤ limit
    → whole body ≡ some bytes
    → (collect limit n acc body).0
      ≡ some (take limit (acc ++ bytes), ltb limit (length (acc ++ bytes)))
unfolding collect whole
collect_lem limit n acc [] bytes fits all =
    let e : [] ≡ bytes = ground arith in
    let short : ltb limit (length acc) ≡ false = ground arith in
    rw (← e, append-nil, take_all limit acc fits, short)
collect_lem limit n acc (none ∷ rest) bytes fits all = cc
collect_lem limit n acc (some chunk ∷ rest) bytes fits all =
    let (more, later, joined) = whole-some chunk bytes rest all in
    elim (dec_le (length chunk) (limit - length acc)) [
      | yes p ↦
          ap (λ (o : Option (List ℕ × Bool) × ℕ). o.0) (collect-next limit n acc chunk rest p)
          ∙ collect_lem limit (touched chunk n) (acc ++ chunk) rest more
              (omega (arith, length-append acc chunk)) later
          ∙ ap (λ t. some (take limit t, ltb limit (length t)))
              (append_assoc acc chunk more ∙ ap (λ t. acc ++ t) joined)
      | no p ↦
          let over : ltb limit (length (acc ++ (chunk ++ more))) ≡ true =
            ground (arith, length-append acc (chunk ++ more), length-append chunk more) in
          collect-cut limit n acc chunk rest (omega arith)
          ∙ ap₂ (λ a b. some (a, b)) (kept limit acc chunk more fits (omega arith)) (sym over)
          ∙ ap (λ t. some (take limit (acc ++ t), ltb limit (length (acc ++ t)))) joined
    ]

conclude-whole :
    (env : Env) (outcome : Outcome) (answer : Answer) (body : List ℕ) (cut : Bool)
    (o : Option (List ℕ × Bool) × ℕ)
    → o.0 ≡ some (body, cut)
    → conclude env outcome answer o ≡ conclude env outcome answer (some (body, cut), o.1)
conclude-whole env outcome answer body cut (kept_body, n) e =
    ap (λ k. conclude env outcome answer (k, n)) e

-- If the output opens and the answer to the request with its reads and the size arrives whole,
-- the outcome records the answer's status, headers, first 64 KiB of body and whether there was
-- more; the attempt succeeds exactly on a 2xx status and is otherwise retryable as retry_status
-- says.
pub upload_lem :
    (env : Env) (size : ℕ) (s : Sent) (file : List (Option (List ℕ))) (answer : Answer)
    (bytes : List ℕ)
    → env.opens ≡ some file
    → (env.send (request_of size file)).answer ≡ some answer
    → whole answer.body ≡ some bytes
    → ((upload env size s).0 ≡ (
        if is_2xx answer.status
        then ok tt
        else err
            ("output PUT returned non-success status", retry_status env.classes answer.status)))
      × ((upload env size s).1.outcome ≡ record s.outcome {
        upload_response =
            some
              (receipt env answer (take response_limit bytes) (ltb response_limit (length bytes)));
      })
unfolding upload exchange conclude
upload_lem env size s file answer bytes opens sent all =
    let n = inspect (take (env.send (request_of size file)).pulled file) s.touches in
    let e : upload env size s
        ≡ conclude env s.outcome answer (collect response_limit n [] answer.body) =
      rw (opens, sent) refl in
    let f =
      e
      ∙ conclude-whole env s.outcome answer _ _ (collect response_limit n [] answer.body)
          (collect_lem response_limit n [] answer.body bytes (omega arith) all) in
    (ap (λ (o : TransferResult × Sent). o.0) f, ap (λ (o : TransferResult × Sent). o.1.outcome) f)

-- The server has answered a request with the reads of the file and this size by a 2xx status, and
-- the outcome has the receipt.
pub record IsTaken (env : Env) (size : ℕ) (outcome : Outcome) : Type 0 where
  pub file : List (Option (List ℕ))
  pub opened : env.opens ≡ some file
  pub answer : Answer
  pub answered : (env.send (request_of size file)).answer ≡ some answer
  pub accepted : is_2xx answer.status ≡ true
  pub receipt : UploadResponse
  pub recorded : outcome.upload_response ≡ some receipt
  pub same_status : receipt.status ≡ answer.status

conclude-ok :
    (env : Env) (outcome : Outcome) (answer : Answer) (o : Option (List ℕ × Bool) × ℕ)
    → (conclude env outcome answer o).0 ≡ ok tt
    → (is_2xx answer.status ≡ true)
      × (r : UploadResponse) × ((conclude env outcome answer o).1.outcome.upload_response ≡ some r)
      × (r.status ≡ answer.status)
unfolding conclude
conclude-ok env outcome answer (none, n) h = cc
conclude-ok env outcome answer (some (body, truncated), n) h = (
  elim (Bool-cases (is_2xx answer.status)) [ inl t ↦ t | inr f ↦ absurd (ground (arith, f)) ],
  receipt env answer body truncated,
  refl,
  refl,
)

-- An upload that succeeds has been taken.
pub upload-ok :
    (env : Env) (size : ℕ) (s : Sent)
    → (upload env size s).0 ≡ ok tt
    → IsTaken env size (upload env size s).1.outcome
unfolding upload exchange conclude
upload-ok env size s h = elim (Option-cases env.opens) [
  | inl e ↦ absurd (ground (arith, e))
  | inr (file, o) ↦ elim (Option-cases (env.send (request_of size file)).answer) [
    | inl e ↦ absurd (ground (arith, o, e))
    | inr (answer, e) ↦
        let n = inspect (take (env.send (request_of size file)).pulled file) s.touches in
        let all : upload env size s
            ≡ conclude env s.outcome answer (collect response_limit n [] answer.body) =
          rw (o, e) refl in
        let (good, r, recorded, same) =
          conclude-ok env s.outcome answer (collect response_limit n [] answer.body)
            (ap (λ (q : TransferResult × Sent). q.0) (sym all) ∙ h) in
        record {
          file = file;
          opened = o;
          answer = answer;
          answered = e;
          accepted = good;
          receipt = r;
          recorded = ap (λ (q : TransferResult × Sent). q.1.outcome.upload_response) all ∙ recorded;
          same_status = same;
        }
  ]
]

conclude-code :
    (env : Env) (outcome : Outcome) (answer : Answer) (o : Option (List ℕ × Bool) × ℕ)
    → (conclude env outcome answer o).1.outcome.ffmpeg_exit_code ≡ outcome.ffmpeg_exit_code
unfolding conclude
conclude-code env outcome answer (none, n) = refl
conclude-code env outcome answer (some (body, truncated), n) = refl

exchange-code :
    (env : Env) (file : List (Option (List ℕ))) (s : Sent) (x : Exchange)
    → (exchange env file s x).1.outcome.ffmpeg_exit_code ≡ s.outcome.ffmpeg_exit_code
unfolding exchange
exchange-code env file s x = elim (Option-cases x.answer) [
  | inl e ↦ rw e refl
  | inr (answer, e) ↦ rw e (conclude-code env s.outcome answer _)
]

pub upload-code :
    (env : Env) (size : ℕ) (s : Sent)
    → (upload env size s).1.outcome.ffmpeg_exit_code ≡ s.outcome.ffmpeg_exit_code
unfolding upload
upload-code env size s = elim (Option-cases env.opens) [
  | inl e ↦ rw e refl
  | inr (file, e) ↦ rw e (exchange-code env file s (env.send (request_of size file)))
]
