-- ===== src/Syscalls.antt =====
-- lib/jevmachopp/MuslSyscalls.cpp: what stands in for the system calls of a C library without a kernel.
-- An `int` is the number of its 32 bits, and an `ssize_t` that of its 64 bits.
pub mod Writing
pub mod Aligned
mod Tests
use jevmachopp.Base.{
  ℕ, zero, suc, ◌+◌, ◌-◌, ◌%◌, ◌^◌, List, [], ◌∷◌, length, Option, none, some, true, false, not,
  ltb, ◌==◌, ◌||◌, ◌&&◌, if◌then◌else◌, Outcome, done, aborted,
}
use jevmachopp.Numerics.{is_pow2}

-- An `int` as a `size_t` or an `ssize_t`.
abbrev pub as_size : ℕ → ℕ
as_size r = if ltb r (2 ^ 31) then r else r + (2 ^ 64 - 2 ^ 32)

-- `write` is what `olibc2uboot_write` gives in each call, cut to an `int`, for its buffer.
module _ (write : ℕ → List ℕ → ℕ) where
  -- The loop of `SYS_IMP_writev`, from a call and a result on.
  unfoldable pub writev_loop : ℕ → ℕ → List (List ℕ) → ℕ
  writev_loop i res [] = res
  writev_loop i res (iov ∷ iovs) =
      let sub_res = write i iov in
      let res' = (res + length iov) % 2 ^ 64 in
      let rest = writev_loop (suc i) res' iovs in
      if ltb (as_size sub_res) (length iov)
      then (if ltb sub_res (2 ^ 31) then res' else as_size sub_res)
      else rest

  -- `SYS_IMP_writev`
  unfoldable pub sys_imp_writev : List (List ℕ) → ℕ
  unfolding writev_loop
  sys_imp_writev iov = writev_loop 0 0 iov

abbrev pub einval : ℕ
einval = 22

abbrev pub enomem : ℕ
enomem = 12

abbrev pub enosys : ℕ
enosys = 38

-- `posix_memalign`: what it returns, and the pointer that it writes. `memalign` gives an address, or
-- none for a null pointer.
unfoldable pub posix_memalign : (ℕ → ℕ → Option ℕ) → ℕ → ℕ → ℕ × Option ℕ
posix_memalign memalign alignment size =
    if ltb alignment 8 || not (alignment % 8 == 0) || not (is_pow2 64 alignment)
    then (einval, none)
    else (elim (memalign alignment size) [ none ↦ (enomem, none) | some res ↦ (0, some res) ])

-- The calls that do nothing.
pub data Syscall : Type 0 where
  getpid : Syscall
  set_tid_address : Syscall
  close : Syscall
  exit : Syscall
  exit_group : Syscall
  fcntl : Syscall
  fstat : Syscall
  mmap : Syscall
  munmap : Syscall
  openat : Syscall
  ppoll : Syscall
  read : Syscall
  readv : Syscall
  futex : Syscall
  ioctl : Syscall
  lseek : Syscall
  rt_sigaction : Syscall
  rt_sigprocmask : Syscall
  tkill : Syscall

-- `-ENOSYS`
abbrev pub minus_enosys : ℕ
minus_enosys = 2 ^ 32 - enosys

-- What they return, whatever their arguments.
unfoldable pub sys_imp : Syscall → Outcome ℕ
sys_imp getpid = done 1
sys_imp set_tid_address = done 1
sys_imp close = aborted
sys_imp exit = aborted
sys_imp exit_group = done minus_enosys
sys_imp fcntl = aborted
sys_imp fstat = aborted
sys_imp mmap = aborted
sys_imp munmap = aborted
sys_imp openat = aborted
sys_imp ppoll = aborted
sys_imp read = aborted
sys_imp readv = aborted
sys_imp futex = aborted
sys_imp ioctl = done minus_enosys
sys_imp lseek = aborted
sys_imp rt_sigaction = done minus_enosys
sys_imp rt_sigprocmask = done minus_enosys
sys_imp tkill = done minus_enosys
