-- ===== src/SearchFs.antt =====
-- lib/jevmachopp/SearchFS.cpp: the search of a volume for files of at least a size. The file system is
-- a parameter. The pool of threads runs each task that is submitted; the tasks are listed here.
pub mod Calls
mod Tests
use jevmachopp.Base.{
  ℕ, zero, suc, ◌+◌, List, [], ◌∷◌, ◌++◌, Bool, true, false, not, ◌==◌, ◌&&◌, ◌||◌, if◌then◌else◌,
  Outcome, done, aborted, ◌>>=◌, ◌>>◌, check,
}

-- What `searchfs` gives in a call: whether `res` is not 0, `errno`, and the `ino` of the matches.
pub record Reply : Type 0 where
  pub res : Bool
  pub errno : ℕ
  pub matches : List ℕ

-- `options`
pub record SearchOptions : Type 0 where
  pub start : Bool
  pub match_files : Bool

-- What `fsgetpath` and `open` give for a file; a failed `fsgetpath` gives -1, which is not 0.
pub record FileReply : Type 0 where
  pub getpath_res : ℕ
  pub opens : Bool

-- Whether a file was opened, and closed again, and `num_files`.
unfoldable pub process_file : FileReply → ℕ → Outcome (Bool × ℕ)
process_file file num_files = do
  check (not (file.getpath_res == 0))
  done (file.opens, num_files + 1)

-- How the search stands, with the tasks that are submitted.
pub data Search : Type 0 where
  finished : List ℕ → Search
  stopped : List ℕ → Search
  searching : List ℕ → Search

module _ (eagain ebusy : ℕ) (searchfs : ℕ → SearchOptions → Reply) where
  -- The loop, from a call on, with fuel for the rounds: without fuel it goes on.
  unfoldable pub search_loop : ℕ → ℕ → SearchOptions → List ℕ → Search
  search_loop zero i options tasks = searching tasks
  search_loop (suc fuel) i options tasks =
      let reply = searchfs i options in
      let tasks' = tasks ++ reply.matches in
      let rest = search_loop fuel (suc i) (record options { start = false }) tasks' in
      if reply.res && not (not (reply.errno == eagain) || not (reply.errno == ebusy))
      then stopped tasks
      else (if reply.res && reply.errno == ebusy
          then stopped tasks
          else (if not reply.res then finished tasks' else rest))

  -- `files_larger_than`, once the volume is found.
  unfoldable pub files_larger_than : Bool → ℕ → Outcome Search
  unfolding search_loop
  files_larger_than statfs_res fuel = do
    check (not statfs_res)
    done (search_loop fuel 0 (record { start = true; match_files = true }) [])
