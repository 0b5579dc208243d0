-- ===== src/Pool/Locks.antt =====
-- src/lockfile.hh: the lock of a pool. The answers of `open` and of `lockf` are parameters.
use cdump.Prelude.{
  ℕ, Bool, true, false, not, List, [], Outcome, ok, throw, runtime_error, codes, ◌==◌,
  if◌then◌else◌,
}

-- `LockFile`
pub record LockFile : Type 0 where
  pub fd : ℕ
  pub locked : Bool

-- `lock`; `res` is the answer of `lockf(fd, F_TLOCK, 0)`.
unfoldable pub lock : ℕ → LockFile → Outcome LockFile
lock res l =
    if not l.locked
    then if res == 0
      then ok (record l { locked = true })
      else throw (runtime_error "Unable to acquire lock on pool")
    else ok l

-- The constructor; `fd` is the answer of `open`, if it is not negative as `opened` says.
unfoldable pub open_lock : Bool → ℕ → ℕ → Outcome LockFile
unfolding lock
open_lock opened fd res =
    if not opened
    then throw (runtime_error "Unable to open lock file")
    else lock res (record { fd = fd; locked = false })

-- `unlock`, with what it writes to `std::cerr`; `res` is the answer of `lockf(fd, F_ULOCK, 0)`.
unfoldable pub unlock : ℕ → LockFile → LockFile × List ℕ
unlock res l =
    if l.locked
    then (
      record l { locked = false },
      if res == 0 then [] else codes "Unable to release lock on pool\n",
    )
    else (l, [])

-- The destructor, with what it writes to `std::cerr`; the closing of `fd` is the operating system's.
unfoldable pub close_lock : ℕ → LockFile → List ℕ
unfolding unlock
close_lock res l = (unlock res l).1
