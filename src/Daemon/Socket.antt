-- ===== src/Daemon/Socket.antt =====
-- How the control socket comes to be (ensure_parent_dir and start_control_socket of
-- userspace/avd/avd.c). What the calls give is an argument.
use antivirus.Common.{
  ℕ, ◌≡◌, Bool, true, false, not, ◌&&◌, Option, List, [], ◌∷◌, ◌++◌, leb, ◌==◌, if◌then◌else◌,
  length, CString, arith,
}
use antivirus.Daemon.{path_max}
use antivirus.Daemon.Trust.{Node, dir_hierarchy_trusted}

-- What lstat finds at the socket's path; an error other than ENOENT is `unknown`.
pub data Found : Type 0 where
  a_link : Found
  a_socket : (mode : ℕ) → Found
  another_file : Found
  nothing : Found
  unknown : Found

-- Whether mkdir makes the parent or finds it, what lstat finds before socket, after bind and after
-- chmod, and whether socket, bind, chmod and listen succeed.
pub record SocketAnswers : Type 0 where
  pub makes_parent : Bool
  pub before : Found
  pub creates : Bool
  pub binds : Bool
  pub after_bind : Found
  pub chmods : Bool
  pub after_chmod : Found
  pub listens : Bool

-- What is done at the path.
pub data SocketCall : Type 0 where
  unlink_socket : SocketCall
  bind_socket : SocketCall
  chmod_socket : SocketCall
  listen_socket : SocketCall

abbrev pub is_socket : Found → Bool
is_socket (a_socket mode) = true
is_socket a_link = false
is_socket another_file = false
is_socket nothing = false
is_socket unknown = false

-- Our socket with the mode 0666.
abbrev pub is_shared : Found → Bool
is_shared (a_socket mode) = mode == 438
is_shared a_link = false
is_shared another_file = false
is_shared nothing = false
is_shared unknown = false

abbrev pub replaceable : Found → Bool
replaceable nothing = true
replaceable (a_socket mode) = true
replaceable a_link = false
replaceable another_file = false
replaceable unknown = false

abbrev pub cleared : Found → List SocketCall
cleared (a_socket mode) = unlink_socket ∷ []
cleared a_link = []
cleared another_file = []
cleared nothing = []
cleared unknown = []

module _ (lstat : CString → Option Node) (euid : ℕ) (dirname : CString → CString) where
  unfoldable pub ensure_parent_dir : Bool → CString → Bool
  ensure_parent_dir makes path =
      not (leb path_max (length path))
      && (makes && dir_hierarchy_trusted lstat euid (dirname path) true)

  -- Behind the guards on the path, with the calls so far.
  unfoldable pub open_socket : SocketAnswers → Bool × List SocketCall
  open_socket a =
      if not a.creates
      then (false, cleared a.before)
      else if not a.binds
      then (false, cleared a.before ++ (bind_socket ∷ []))
      else if not (is_socket a.after_bind)
      then (false, cleared a.before ++ (bind_socket ∷ []))
      else if not a.chmods
      then (false, cleared a.before ++ (bind_socket ∷ chmod_socket ∷ []))
      else if not (is_shared a.after_chmod)
      then (false, cleared a.before ++ (bind_socket ∷ chmod_socket ∷ []))
      else if not a.listens
      then (
        false,
        cleared a.before ++ (bind_socket ∷ chmod_socket ∷ listen_socket ∷ unlink_socket ∷ []),
      )
      else (true, cleared a.before ++ (bind_socket ∷ chmod_socket ∷ listen_socket ∷ []))

  -- `sun_size` is the size of sun_path.
  unfoldable pub start_control_socket : ℕ → SocketAnswers → CString → Bool × List SocketCall
  unfolding open_socket ensure_parent_dir
  start_control_socket sun_size a [] = (false, [])
  start_control_socket sun_size a (c ∷ path) =
      if not (c == b'/')
      then (false, [])
      else if not (ensure_parent_dir a.makes_parent (c ∷ path))
      then (false, [])
      else if leb sun_size (length (c ∷ path))
      then (false, [])
      else if not (replaceable a.before)
      then (false, [])
      else open_socket a

  -- The socket is served only where every directory on the way to it is trusted, what stood at the
  -- path was nothing or a socket, and lstat has shown a socket of mode 0666 there after chmod.
  start_control_socket_lem :
      (sun_size : ℕ) (a : SocketAnswers) (path : CString)
      → (start_control_socket sun_size a path).0 ≡ true
      → (dir_hierarchy_trusted lstat euid (dirname path) true ≡ true)
        × (replaceable a.before ≡ true)
        × (is_socket a.after_bind ≡ true)
        × (is_shared a.after_chmod ≡ true)
  unfolding start_control_socket ensure_parent_dir open_socket
  start_control_socket_lem sun_size a [] h = cc
  start_control_socket_lem sun_size a (c ∷ path) h =
      (ground (arith, h), ground (arith, h), ground (arith, h), ground (arith, h))
