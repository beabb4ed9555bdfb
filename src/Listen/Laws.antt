-- ===== src/Listen/Laws.antt =====
-- What is printed of a listener is read back as it was.
use ffmpeg_docker_playground.Base.Text.{strip_prefix}
use ffmpeg_docker_playground.Base.Text.Prefix.{strip_prefix-append, strip_prefix_sound}
use ffmpeg_docker_playground.Base.Text.Split.{◌++ₛ◌}
use ffmpeg_docker_playground.Base.{
  ◌≡◌, refl, sym, ◌≢◌, inl, inr, Bool, true, false, Option, none, some, String, ok, Option-cases,
  subst, arith,
}
use ffmpeg_docker_playground.Listen.{
  Listen, tcp, unix, is_absolute, file_name, is_none, parse_tcp, parse_unix, parse, show,
}

module _ {Addr : Type 0} (on_unix : Bool) (parse_addr : String → Option Addr)
    (show_addr : Addr → String) where
  -- What the text of a listener says.
  pub data Says (s : String) : Listen Addr → Type 0 where
    address : (a : Addr) → parse_addr s ≡ some a → Says s (tcp a)
    path :
        (p : String)
        → s ≡ "unix:" ++ₛ p
        → on_unix ≡ true
        → is_absolute p ≡ true
        → file_name p ≢ none
        → Says s (unix p)

  parse_unix_sound :
      (p : String) (l : Listen Addr)
      → parse_unix on_unix parse_addr show_addr p ≡ ok l
      → (l ≡ unix p) × (on_unix ≡ true) × (is_absolute p ≡ true) × (is_none (file_name p) ≡ false)
  unfolding parse_unix
  parse_unix_sound p l h = ground arith

  is_none-eq-false : (o : Option String) → is_none o ≡ false → o ≢ none
  is_none-eq-false none h n = cc
  is_none-eq-false (some p) h n = cc

  is_none_of_some : (o : Option String) → o ≢ none → is_none o ≡ false
  is_none_of_some none n = absurd (n refl)
  is_none_of_some (some p) n = refl

  parse_tcp_sound :
      (s : String) (o : Option Addr) (l : Listen Addr)
      → parse_addr s ≡ o
      → parse_tcp on_unix parse_addr show_addr o ≡ ok l
      → Says s l
  parse_tcp_sound s none l e h = cc
  parse_tcp_sound s (some a) l e h =
      let same : tcp a ≡ l = cc in subst (Says s) same (Says.address a e)

  pub parse_sound :
      (s : String) (l : Listen Addr) → parse on_unix parse_addr show_addr s ≡ ok l → Says s l
  unfolding parse
  parse_sound s l h = elim (Option-cases (strip_prefix "unix:" s)) [
    | inl e ↦ parse_tcp_sound s (parse_addr s) l refl (rw (e, parse) at h)
    | inr (p, e) ↦
        let (same, platform, absolute, named) = parse_unix_sound p l (rw (e, parse) at h) in
        subst (Says s) (sym same) (
          Says.path p (strip_prefix_sound "unix:" s p e) platform absolute
            (is_none-eq-false (file_name p) named))
  ]

  module _ (plain : (s : String) (a : Addr) → parse_addr s ≡ some a → strip_prefix "unix:" s ≡ none)
      (readable : (a : Addr) → parse_addr (show_addr a) ≡ some a) where
    parse_complete :
        (s : String) (l : Listen Addr) → Says s l → parse on_unix parse_addr show_addr s ≡ ok l
    unfolding parse parse_unix
    parse_complete s (tcp a) (Says.address _ e) = rw (plain s a e, e, parse) refl
    parse_complete s (unix p) (Says.path _ e platform absolute named) =
        let named = is_none_of_some (file_name p) named in
        rw (e, strip_prefix-append "unix:" p, parse)
          (rw (platform, absolute, named, parse_unix) refl)

    show-Says :
        (s : String) (l : Listen Addr) → Says s l → Says (show on_unix parse_addr show_addr l) l
    unfolding show
    show-Says s (tcp a) (Says.address _ e) = Says.address a (readable a)
    show-Says s (unix p) (Says.path _ e platform absolute named) =
        Says.path p refl platform absolute named

    -- Where socket addresses are printed as they are read, and none of their texts begins with
    -- unix:, a listener that is read from a text is an address that the text names, or the
    -- absolute path with a file name behind unix:, on a platform with Unix sockets; and it is
    -- read back from what is printed of it.
    pub parse-show :
        (s : String) (l : Listen Addr)
        → parse on_unix parse_addr show_addr s ≡ ok l
        → Says s l
          × (parse on_unix parse_addr show_addr (show on_unix parse_addr show_addr l) ≡ ok l)
    parse-show s l h =
        let said = parse_sound s l h in
        (said, parse_complete (show on_unix parse_addr show_addr l) l (show-Says s l said))
