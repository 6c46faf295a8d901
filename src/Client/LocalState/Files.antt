-- ===== src/Client/LocalState/Files.antt =====
-- ReadAllFile, WriteAllFileAtomic, FsyncDirectory, EnsureStateDir and the path of the state file of
-- src/client/client.cpp. A call that returns an answer of the file system stands for its system call.
use pqchat.Client.Host.{
  FileKind, Host, directory, interrupted, other_file, symlink, write_failed, wrote,
}
use pqchat.Prelude.{
  Bool, Bytes, Option, String, [], codes, drop, false, if◌then◌else◌, length, ltb, none, not, some,
  suc, take, true, zero, ℕ, ◌*◌, ◌++◌, ◌+◌, ◌==◌, ◌||◌, ◌∷◌,
}
use pqchat.Result.{Result, err, ok}
use pqchat.Server.InMemory.Hex.{between}
use pqchat.Server.InMemory.State.{empty}

abbrev max_state_file_bytes : ℕ
max_state_file_bytes = 16 * 1024 * 1024

unfoldable pub is_file_char : ℕ → Bool
is_file_char c =
    between 97 122 c || between 65 90 c || between 48 57 c || c == 45 || c == 95 || c == 46

-- The loop of SanitizeForFile.
unfoldable pub sanitize_chars : Bytes → Bytes
sanitize_chars [] = []
sanitize_chars (c ∷ cs) = (if is_file_char c then c else 95) ∷ sanitize_chars cs

unfoldable pub sanitize_for_file : Bytes → Bytes
sanitize_for_file input = let out = sanitize_chars input in if empty out then codes "user" else out

-- The environment variables that are set: PQCHAT_STATE_DIR, XDG_STATE_HOME, HOME.
unfoldable pub default_local_state_path : Option Bytes → Option Bytes → Option Bytes → Bytes → Bytes
default_local_state_path env_dir xdg_state_home home user_id =
    (state_dir env_dir ++ codes "/") ++ sanitize_for_file user_id ++ codes ".bin"
  where
    home_dir : Option Bytes → Bytes
    home_dir none = codes "/tmp/pqchat_state"
    home_dir (some dir) =
        if empty dir then codes "/tmp/pqchat_state" else dir ++ codes "/.local/state/pqchat"

    xdg_dir : Option Bytes → Bytes
    xdg_dir none = home_dir home
    xdg_dir (some dir) = if empty dir then home_dir home else dir ++ codes "/pqchat"

    state_dir : Option Bytes → Bytes
    state_dir none = xdg_dir xdg_state_home
    state_dir (some dir) = if empty dir then xdg_dir xdg_state_home else dir

-- `path.find_last_of('/')`, counted from `start`
abbrev find_last_slash : Bytes → ℕ → Option ℕ → Option ℕ
find_last_slash [] i found = found
find_last_slash (c ∷ cs) i found = find_last_slash cs (i + 1) (if c == 47 then some i else found)

-- The directory of a path: none where there is no slash, or only at the front.
unfoldable pub parent_dir : Bytes → Option Bytes
parent_dir path = elim (find_last_slash path 0 none) [
  | none ↦ none
  | some slash ↦ if slash == 0 then none else some (take slash path)
]

module _ {W : Type 0} (host : Host W) where
  open host use {files}

  -- `if (call != 0) { cleanup; return Err(text) }`
  abbrev step :
      (W → Bool × W) → (W → W) → String → (W → Result (Unit {0}) × W) → W → Result (Unit {0}) × W
  step act cleanup text next w =
      let (done, w') = act w in elim done [ true ↦ next w' | false ↦ (err text, cleanup w') ]

  abbrev finish : W → Result (Unit {0}) × W
  finish w = (ok tt, w)

  abbrev no_cleanup : W → W
  no_cleanup w = w

  unfoldable pub fsync_directory : Bytes → W → Result (Unit {0}) × W
  fsync_directory dir =
      step (files.open_directory dir) no_cleanup "failed opening state directory" (
        step (files.fsync dir) (λ w. (files.close dir w).1) "failed syncing state directory"
          (step (files.close dir) no_cleanup "failed closing state directory" finish))

  unfoldable pub ensure_state_dir : Bytes → W → Result (Unit {0}) × W
  ensure_state_dir dir w = elim (files.lstat dir w) [
    | some symlink ↦ (err "state directory path must not be a symlink", w)
    | some other_file ↦ (err "state path is not a directory", w)
    | some directory ↦
        step (files.chmod dir) no_cleanup "failed setting state directory permissions" finish w
    | none ↦
        step (files.create_directories dir) no_cleanup "failed creating state directory"
          (step (files.chmod dir) no_cleanup "failed setting state directory permissions" finish) w
  ]

  unfoldable pub read_all_file : Bytes → W → Result Bytes
  read_all_file path w =
      if not (files.readable path w)
      then err "state file missing"
      else elim (files.file_size path w) [
        | none ↦ err "failed to read state size"
        | some size ↦
            if ltb max_state_file_bytes size
            then err "state file too large"
            else if not (length (files.read_bytes path w) == size)
            then err "state file read truncated"
            else ok (files.read_bytes path w)
      ]

  -- The loop that writes what is left, by the rounds that are followed.
  unfoldable pub write_loop : ℕ → Bytes → Bytes → W → Option Bool × W
  write_loop rounds tmp [] w = (some true, w)
  write_loop zero tmp (b ∷ left) w = (none, w)
  write_loop (suc rounds) tmp (b ∷ left) w =
      let (answer, w') = files.write tmp (b ∷ left) w in
      elim answer [
        | interrupted ↦ write_loop rounds tmp (b ∷ left) w'
        | write_failed ↦ (some false, w')
        | wrote n ↦ write_loop rounds tmp (drop n (b ∷ left)) w'
      ]

  abbrev drop_temp : Bytes → W → W
  drop_temp tmp w = files.unlink tmp w

  abbrev close_and_drop : Bytes → W → W
  close_and_drop tmp w = files.unlink tmp ((files.close tmp w).1)

  unfoldable pub commit_file : Bytes → Bytes → Bytes → W → Result (Unit {0}) × W
  commit_file dir tmp path =
      step (files.fsync tmp) (close_and_drop tmp) "failed syncing state file" (
        step (files.close tmp) (drop_temp tmp) "failed closing state file" (
          step (files.rename tmp path) (drop_temp tmp) "failed committing state file"
            (fsync_directory dir)))

  -- What follows when the loop has ended. A loop that is not followed to its end is no outcome of the
  -- code: the text says so.
  unfoldable pub after_loop : Bytes → Bytes → Bytes → Option Bool × W → Result (Unit {0}) × W
  after_loop dir tmp path (none, w) = (err "(the write loop goes on)", w)
  after_loop dir tmp path (some false, w) = (err "failed writing state file", close_and_drop tmp w)
  after_loop dir tmp path (some true, w) = commit_file dir tmp path w

  unfoldable pub write_temp : Bytes → Bytes → Bytes → Bytes → W → Result (Unit {0}) × W
  write_temp dir tmp path bytes =
      step (files.fchmod tmp) (close_and_drop tmp) "failed setting state temp file permissions"
        λ w. after_loop dir tmp path (write_loop host.write_rounds tmp bytes w)

  abbrev is_symlink : Option FileKind → Bool
  is_symlink (some symlink) = true
  is_symlink _ = false

  unfoldable pub write_all_file_atomic : Bytes → Bytes → W → Result (Unit {0}) × W
  write_all_file_atomic path bytes w = elim (parent_dir path) [
    | none ↦ (err "invalid local state path", w)
    | some dir ↦ elim (is_symlink (files.lstat path w)) [
      | true ↦ (err "state file path must not be a symlink", w)
      | false ↦
          let (tmp, w') = files.mkstemp (dir ++ codes "/.pqchat_state_tmp_XXXXXX") w in
          elim tmp [
            | none ↦ (err "failed to open state temp file", w')
            | some name ↦ write_temp dir name path bytes w'
          ]
    ]
  ]
