-- ===== src/Listen/Socket.antt =====
-- agent/src/listen.rs: `bind` of a Unix socket, and the drop of its `SocketFile`, on what the path
-- refers to. The calls follow each other with nothing in between.
pub mod Laws
use ffmpeg_docker_playground.Base.{
  ℕ, Bool, true, false, not, ◌&&◌, ◌||◌, Option, none, some, nat_eq, Result, ok, err, if◌then◌else◌,
}

-- A socket, live if a process accepts connections on it, or anything else.
pub data Kind : Type 0 where
  socket : Bool → Kind
  other : Kind

-- What a path refers to, with its device and inode.
pub record Node : Type 0 where
  pub kind : Kind
  pub identity : ℕ × ℕ
  pub mode : ℕ

-- The calls that fail for reasons of their own, and the identity and the mode of a new socket.
pub record System : Type 0 where
  pub inspects : Bool
  pub connects : Bool
  pub removes : Bool
  pub binds : Bool
  pub reinspects : Bool
  pub sets_mode : Bool
  pub identity : ℕ × ℕ
  pub mode : ℕ

pub data BindError : Type 0 where
  in_use cannot_check cannot_remove not_socket cannot_inspect : BindError
  cannot_bind cannot_reinspect cannot_set_mode : BindError

-- The path itself is the one that this model is about.
pub record SocketFile : Type 0 where
  pub identity : ℕ × ℕ

abbrev same_identity : ℕ × ℕ → ℕ × ℕ → Bool
same_identity (dev, ino) (dev', ino') = nat_eq dev dev' && nat_eq ino ino'

-- `Drop for SocketFile`; the first argument says whether the path can be inspected, the second
-- whether it can be removed.
unfoldable pub drop : Bool → Bool → SocketFile → Option Node → Option Node
drop inspects removes file none = none
drop inspects removes file (some n) =
    if inspects && same_identity n.identity file.identity && removes then none else some n

-- The listener is closed: its socket stays where it is, and nobody accepts on it.
unfoldable pub close : ℕ × ℕ → Option Node → Option Node
close identity none = none
close identity (some n) =
    if same_identity n.identity identity then some (record n { kind = socket false }) else some n

module _ (sys : System) where
  abbrev remove_stale : Node → Result BindError (Unit {0}) × Option Node
  remove_stale n = if sys.removes then (ok tt, none) else (err cannot_remove, some n)

  -- A socket that is there: its connection is accepted, refused, or fails.
  abbrev check_socket : Bool → Node → Result BindError (Unit {0}) × Option Node
  check_socket live n =
      if not sys.connects
      then (err cannot_check, some n)
      else if live
      then (err in_use, some n)
      else remove_stale n

  abbrev check_kind : Kind → Node → Result BindError (Unit {0}) × Option Node
  check_kind (socket live) n = check_socket live n
  check_kind other n = (err not_socket, some n)

  -- The `match` on the metadata of the path.
  unfoldable pub clear : Option Node → Result BindError (Unit {0}) × Option Node
  clear path =
      if not sys.inspects
      then (err cannot_inspect, path)
      else elim path [ none ↦ (ok tt, none) | some n ↦ check_kind n.kind n ]

  abbrev pub created : ℕ → Option Node
  created mode = some (record { kind = socket true; identity = sys.identity; mode = mode })

  -- What follows on a path that is free, in the order of the calls: the listener and the
  -- `SocketFile` that exist are dropped on an error, the latter first.
  unfoldable pub create : Result BindError SocketFile × Option Node
  unfolding drop close
  create =
      let file : SocketFile = record { identity = sys.identity } in
      if not sys.binds
      then (err cannot_bind, none)
      else if not sys.reinspects
      then (err cannot_reinspect, close sys.identity (created sys.mode))
      else if not sys.sets_mode
      then (
        err cannot_set_mode,
        close sys.identity (drop sys.inspects sys.removes file (created sys.mode)),
      )
      else (ok file, created 0o666)

  abbrev after_clear :
      Result BindError (Unit {0}) × Option Node → Result BindError SocketFile × Option Node
  after_clear (err e, path) = (err e, path)
  after_clear (ok _, path) = create

  unfoldable pub bind : Option Node → Result BindError SocketFile × Option Node
  unfolding clear create
  bind path = after_clear (clear path)
