-- ===== src/Errno.antt =====
-- What the C functions return: 0, or a negated error number. The error numbers have the names of
-- errno.h; their numeric values are the C library's and play no part. `driver n` is any other
-- non-zero code that a platform call hands back and the source passes on.
use kfsw_modules.Prelude.{ℕ, Bool, true, false, ◌≡◌, refl, ◌⊎◌, inl, inr}

pub data Errno : Type 0 where
  eperm enoent eio eagain eacces ebusy enodev einval enospc erange : Errno
  ebadmsg emsgsize ealready eoverflow : Errno
  driver : ℕ → Errno

pub data Ret : Type 0 where
  ok : Ret
  err : Errno → Ret

-- `result == 0`
abbrev pub is_ok : Ret → Bool
is_ok ok = true
is_ok (err _) = false

-- To split on a computed result and keep the equation.
pub Ret-cases : (r : Ret) → (r ≡ ok) ⊎ ((e : Errno) × (r ≡ err e))
Ret-cases ok = inl refl
Ret-cases (err e) = inr (e, refl)
