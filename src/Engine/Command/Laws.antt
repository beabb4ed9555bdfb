-- ===== src/Engine/Command/Laws.antt =====
-- What FFmpeg is told to do with a job that was accepted.
use ffmpeg_docker_playground.Base.{
  ◌≡◌, refl, ap, ◌∙◌, eq_iff, Bool-cases, inl, inr, All, List, [], ◌∷◌, ◌++◌, String, ◌==◌,
}
use ffmpeg_docker_playground.Model.Job.Args.{IsPlain, IsCommand}
use ffmpeg_docker_playground.Engine.Command.{fixed_args, substitute, command_args}

module _ (limit input output : String) where
  substitute-append :
      (xs ys : List String)
      → substitute limit input output (xs ++ ys)
        ≡ substitute limit input output xs ++ substitute limit input output ys
  unfolding substitute
  substitute-append [] ys = refl
  substitute-append (x ∷ xs) ys = elim (Bool-cases (x == "{input}")) [
    | inl e ↦ rw e (ap (λ t. input ∷ t) (substitute-append xs ys))
    | inr e ↦ elim (Bool-cases (x == "{output}")) [
      | inl o ↦ rw (e, o) (ap (λ t. "-fs" ∷ limit ∷ output ∷ t) (substitute-append xs ys))
      | inr o ↦ rw (e, o) (ap (λ t. x ∷ t) (substitute-append xs ys))
    ]
  ]

  substitute-plain : (xs : List String) → All IsPlain xs → substitute limit input output xs ≡ xs
  unfolding substitute
  substitute-plain [] h = refl
  substitute-plain (x ∷ xs) ((f, i, o), h) = elim (Bool-cases (x == "{input}")) [
    | inl e ↦ absurd (i ((eq_iff x "{input}").0 e))
    | inr e ↦ elim (Bool-cases (x == "{output}")) [
      | inl e' ↦ absurd (o ((eq_iff x "{output}").0 e'))
      | inr e' ↦ rw (e, e') (ap (λ t. x ∷ t) (substitute-plain xs h))
    ]
  ]

  -- The arguments of an FFmpeg command reach FFmpeg as they stand, behind the agent's own, but
  -- for the one input, which becomes the downloaded file, and the one output at the end, which
  -- becomes the output file under a size limit.
  pub command_args_lem :
      (args : List String) (c : IsCommand args)
      → command_args limit input output args
        ≡ fixed_args ++ (c.before ++ "-i" ∷ input ∷ (c.middle ++ "-fs" ∷ limit ∷ output ∷ []))
  unfolding command_args
  command_args_lem args c =
      ap (λ t. fixed_args ++ t)
        (ap (substitute limit input output) c.shape
          ∙ substitute-append c.before ("-i" ∷ "{input}" ∷ (c.middle ++ "{output}" ∷ []))
          ∙ ap
              (λ t. t ++ "-i" ∷ input ∷ substitute limit input output (c.middle ++ "{output}" ∷ []))
              (substitute-plain c.before c.plain_before)
          ∙ ap (λ t. c.before ++ "-i" ∷ input ∷ t)
              (substitute-append c.middle ("{output}" ∷ [])
                ∙ ap (λ t. t ++ "-fs" ∷ limit ∷ output ∷ [])
                    (substitute-plain c.middle c.plain_middle)))
