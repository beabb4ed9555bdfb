-- ===== src/Listen/Socket/Laws.antt =====
-- What binding a path may do to what it finds there.
use mathlib.Core.Path.{ap₂}
use ffmpeg_docker_playground.Base.{
  if-elim, ℕ, ◌≡◌, refl, ◌≢◌, inl, inr, Bool, true, false, not, ◌&&◌, Bool-cases, Option, none,
  some, Result, ok, err, if◌then◌else◌, arith,
}
use ffmpeg_docker_playground.Listen.Socket.{
  Kind, socket, other, Node, System, BindError, SocketFile, same_identity, drop, close, check_kind,
  after_clear, clear, create, created, bind,
}

-- Nothing of value: a path that is free, or a socket that nobody listens on.
pub data IsFree : Option Node → Type 0 where
  nothing : IsFree none
  stale : (n : Node) → n.kind ≡ socket false → IsFree (some n)

-- The socket that `bind` hands out: its own, live, with mode 0666. Its drop frees the path, and
-- leaves what others have put there since.
pub record IsBound (sys : System) (file : SocketFile) (path : Option Node) : Type 0 where
  pub own : file.identity ≡ sys.identity
  pub present : path ≡ created sys 0o666
  pub dropped : drop true true file path ≡ none
  pub spared :
      (inspects removes : Bool) (n : Node)
      → n.identity ≢ file.identity
      → drop inspects removes file (some n) ≡ some n

-- How a call ends on a path: with the socket on a path that was free; with an error and the path
-- as it was; or with an error that leaves a free path free.
pub data IsEnd (sys : System) (path : Option Node)
    : Result BindError SocketFile × Option Node → Type 0 where
  bound :
      (file : SocketFile) (after : Option Node)
      → IsFree path
      → IsBound sys file after
      → IsEnd sys path (ok file, after)
  refused : (e : BindError) → IsEnd sys path (err e, path)
  freed :
      (e : BindError) (after : Option Node)
      → IsFree path
      → IsFree after
      → IsEnd sys path (err e, after)

data IsCleared (path : Option Node) : Result BindError (Unit {0}) × Option Node → Type 0 where
  clean : IsFree path → IsCleared path (ok tt, none)
  kept : (e : BindError) → IsCleared path (err e, path)

same_identity_refl : (i : ℕ × ℕ) → same_identity i i ≡ true
same_identity_refl (dev, ino) = ground arith

same_identity_sound : (i j : ℕ × ℕ) → same_identity i j ≡ true → i ≡ j
same_identity_sound (dev, ino) (dev', ino') h = ap₂ (λ d i. (d, i)) (ground arith) (ground arith)

drop-spared :
    (file : SocketFile) (inspects removes : Bool) (n : Node)
    → n.identity ≢ file.identity
    → drop inspects removes file (some n) ≡ some n
unfolding drop
drop-spared file inspects removes n h = elim (Bool-cases (same_identity n.identity file.identity)) [
  | inl e ↦ absurd (h (same_identity_sound n.identity file.identity e))
  | inr e ↦ ground (arith, e)
]

-- Dropping a socket's file leaves nothing of value where there was none.
pub drop-IsFree :
    (inspects removes : Bool) (file : SocketFile) (path : Option Node)
    → IsFree path
    → IsFree (drop inspects removes file path)
unfolding drop
drop-IsFree inspects removes file none h = h
drop-IsFree inspects removes file (some n) h =
    if-elim IsFree (inspects && same_identity n.identity file.identity && removes) none (some n)
      (λ _. IsFree.nothing) (λ _. h)

module _ (sys : System) where
  check_kind-IsCleared :
      (kind : Kind) (n : Node) → n.kind ≡ kind → IsCleared (some n) (check_kind sys kind n)
  check_kind-IsCleared other n e = IsCleared.kept BindError.not_socket
  check_kind-IsCleared (socket true) n e =
      if-elim (IsCleared (some n)) (not sys.connects) _ _
        (λ _. IsCleared.kept BindError.cannot_check) (λ _. IsCleared.kept BindError.in_use)
  check_kind-IsCleared (socket false) n e =
      if-elim (IsCleared (some n)) (not sys.connects) _ _
        (λ _. IsCleared.kept BindError.cannot_check)
        (λ _.
          if-elim (IsCleared (some n)) sys.removes _ _ (λ _. IsCleared.clean (IsFree.stale n e))
            (λ _. IsCleared.kept BindError.cannot_remove))

  clear-IsCleared : (path : Option Node) → IsCleared path (clear sys path)
  unfolding clear
  clear-IsCleared none =
      if-elim (IsCleared none) (not sys.inspects) _ _ (λ _. IsCleared.kept BindError.cannot_inspect)
        (λ _. IsCleared.clean IsFree.nothing)
  clear-IsCleared (some n) =
      if-elim (IsCleared (some n)) (not sys.inspects) _ _
        (λ _. IsCleared.kept BindError.cannot_inspect) (λ _. check_kind-IsCleared n.kind n refl)

  -- A closed socket of ours is nothing of value, even if it was removed in between.
  pub close-IsFree : (mode : ℕ) → IsFree (close sys.identity (created sys mode))
  unfolding close
  close-IsFree mode = rw (same_identity_refl sys.identity) (IsFree.stale _ refl)

  close-drop-IsFree :
      (inspects removes : Bool) (mode : ℕ)
      → IsFree (
          close sys.identity
            (drop inspects removes (record { identity = sys.identity }) (created sys mode)))
  unfolding drop close
  close-drop-IsFree inspects removes mode =
      freed_or_closed (inspects && same_identity sys.identity sys.identity && removes)
    where
      freed_or_closed :
          (b : Bool) → IsFree (close sys.identity (if b then none else created sys mode))
      freed_or_closed true = IsFree.nothing
      freed_or_closed false = close-IsFree mode

  create-IsEnd : (path : Option Node) → IsFree path → IsEnd sys path (create sys)
  unfolding create drop
  create-IsEnd path free =
      if-elim (IsEnd sys path) (not sys.binds) _ _
        (λ _. IsEnd.freed BindError.cannot_bind none free IsFree.nothing)
        (λ _.
          if-elim (IsEnd sys path) (not sys.reinspects) _ _
            (λ _. IsEnd.freed BindError.cannot_reinspect _ free (close-IsFree sys.mode))
            (λ _.
              if-elim (IsEnd sys path) (not sys.sets_mode) _ _
                (λ _.
                  IsEnd.freed BindError.cannot_set_mode _ free
                    (close-drop-IsFree sys.inspects sys.removes sys.mode))
                (λ _.
                  IsEnd.bound (record { identity = sys.identity }) (created sys 0o666) free
                    (record {
                      own = refl;
                      present = refl;
                      dropped = rw (same_identity_refl sys.identity) refl;
                      spared = drop-spared (record { identity = sys.identity });
                    }))))

  after_clear-IsEnd :
      (path : Option Node) (o : Result BindError (Unit {0}) × Option Node)
      → IsCleared path o
      → IsEnd sys path (after_clear sys o)
  after_clear-IsEnd path _ (IsCleared.clean free) = create-IsEnd path free
  after_clear-IsEnd path _ (IsCleared.kept e) = IsEnd.refused e

  -- Binding a path either gives a live socket of mode 0666 on a path that was free or had a
  -- stale socket, whose drop removes it and nothing else; or it fails with the path as it was;
  -- or it fails on a path that was free or stale and leaves it so. A live socket and what is no
  -- socket are never touched.
  pub bind-IsEnd : (path : Option Node) → IsEnd sys path (bind sys path)
  unfolding bind
  bind-IsEnd path = after_clear-IsEnd path (clear sys path) (clear-IsCleared path)
